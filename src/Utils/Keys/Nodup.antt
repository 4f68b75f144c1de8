-- ===== src/Utils/Keys/Nodup.antt =====
-- Lists of texts without repetitions: what sorting keeps of them, and the names of a map.
use autovpa.Common.{
  String, true, false, ◌⊎◌, inl, inr, none, List, [], ◌∷◌, Entries, lookup, IsMap, ◌≡◌, refl, ◌∙◌,
  arith, eq_iff, elem, eq_self, ◌==◌, Bool-cases,
}
use autovpa.Utils.Sort.{text_leb, insert_sorted, sort}
use autovpa.Utils.Keys.{names_of}

abbrev pub NoDup : List String → Type 0
NoDup [] = Unit
NoDup (k ∷ l) = (elem k l ≡ false) × NoDup l

elem-insert_sorted : (j k : String) (l : List String) → elem j (insert_sorted k l) ≡ elem j (k ∷ l)
unfolding insert_sorted
elem-insert_sorted j k [] = refl
elem-insert_sorted j k (i ∷ l) = ground (arith, elem-insert_sorted j k l)

pub elem-sort : (j : String) (l : List String) → elem j (sort l) ≡ elem j l
unfolding sort
elem-sort j [] = refl
elem-sort j (k ∷ l) = ground (arith, elem-insert_sorted j k (sort l), elem-sort j l)

insert_sorted-NoDup :
    (k : String) (l : List String) → elem k l ≡ false → NoDup l → NoDup (insert_sorted k l)
unfolding insert_sorted
insert_sorted-NoDup k [] h n = (refl, tt)
insert_sorted-NoDup k (i ∷ l) h n = elim (Bool-cases (text_leb k i)) [
  | inl below ↦ rw below (h, n)
  | inr above ↦
      let other : elem i (insert_sorted k l) ≡ false =
        ground (arith, h, n.0, elem-insert_sorted i k l, eq_iff k i, eq_iff i k) in
      let rest : elem k l ≡ false = ground (arith, h) in
      rw above (other, insert_sorted-NoDup k l rest n.1)
]

pub sort-NoDup : (l : List String) → NoDup l → NoDup (sort l)
unfolding sort
sort-NoDup [] n = tt
sort-NoDup (k ∷ l) n = insert_sorted-NoDup k (sort l) (elem-sort k l ∙ n.0) (sort-NoDup l n.1)

pub elem-cases :
    (j k : String) (l : List String) → elem j (k ∷ l) ≡ true → (k ≡ j) ⊎ (elem j l ≡ true)
elem-cases j k l h = elim (Bool-cases (k == j)) [
  | inl same ↦ inl ((eq_iff k j).0 same)
  | inr other ↦ inr (ground (arith, h, other))
]

pub elem_head : (k : String) (l : List String) → elem k (k ∷ l) ≡ true
elem_head k l = ground (arith, eq_self k)

pub elem_later : (j k : String) (l : List String) → elem j l ≡ true → elem j (k ∷ l) ≡ true
elem_later j k l h = ground (arith, h)

pub elem-names_of :
    (k : String) (l : Entries String) → elem k (names_of l) ≡ false → lookup k l ≡ none
unfolding lookup
elem-names_of k [] h = refl
elem-names_of k ((j, v) ∷ l) h = ground (arith, h, elem-names_of k l)

pub elem_of_lookup :
    (k : String) (l : Entries String) → lookup k l ≡ none → elem k (names_of l) ≡ false
unfolding lookup
elem_of_lookup k [] h = refl
elem_of_lookup k ((j, v) ∷ l) h = ground (arith, h, elem_of_lookup k l)

pub names_of-NoDup : (l : Entries String) → IsMap l → NoDup (names_of l)
names_of-NoDup [] h = tt
names_of-NoDup ((k, v) ∷ l) h = (elem_of_lookup k l h.0, names_of-NoDup l h.1)
