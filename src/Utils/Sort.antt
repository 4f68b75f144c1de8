-- ===== src/Utils/Sort.antt =====
-- sort.Strings of Go, which internal/utils/utils.go uses: texts in the order of their code points.
use Prim.Native.Char.{code}
use text.Mathlib.TextEquality.{codes_equal}
use mathlib.Core.HLevel.{hedberg}
use mathlib.Core.List.{Perm, foldr}
use mathlib.Core.List.Perm
use autovpa.Common.{
  String, Bool, true, false, ◌||◌, ◌&&◌, List, [], ◌∷◌, ◌≡◌, refl, sym, ap₂, arith, ltb, nat_eq,
  ◌==◌, if◌then◌else◌, eq_iff, Bool-cases, inl, inr,
}

-- `a <= b`
unfoldable pub text_leb : (a b : String) → Bool
text_leb String.[] b = true
text_leb (String.◌∷◌ c s) String.[] = false
text_leb (String.◌∷◌ c s) (String.◌∷◌ d t) =
    ltb (code c) (code d) || (nat_eq (code c) (code d) && text_leb s t)

text_leb_total : (a b : String) → text_leb a b ≡ false → text_leb b a ≡ true
unfolding text_leb
text_leb_total String.[] b h = ground arith
text_leb_total (String.◌∷◌ c s) String.[] h = refl
text_leb_total (String.◌∷◌ c s) (String.◌∷◌ d t) h = ground (arith, h, text_leb_total s t)

text_leb_trans : (a b c : String) → text_leb a b ≡ true → text_leb b c ≡ true → text_leb a c ≡ true
unfolding text_leb
text_leb_trans String.[] b c h k = refl
text_leb_trans (String.◌∷◌ x s) String.[] c h k = ground arith
text_leb_trans (String.◌∷◌ x s) (String.◌∷◌ y t) String.[] h k = ground arith
text_leb_trans (String.◌∷◌ x s) (String.◌∷◌ y t) (String.◌∷◌ z u) h k =
    ground (arith, h, k, text_leb_trans s t u)

text_leb_antisymm : (a b : String) → text_leb a b ≡ true → text_leb b a ≡ true → a ≡ b
unfolding text_leb
text_leb_antisymm String.[] String.[] h k = refl
text_leb_antisymm String.[] (String.◌∷◌ d t) h k = ground arith
text_leb_antisymm (String.◌∷◌ c s) String.[] h k = ground arith
text_leb_antisymm (String.◌∷◌ c s) (String.◌∷◌ d t) h k =
    let heads : nat_eq (code c) (code d) ≡ true = ground (arith, h, k) in
    let tails : (text_leb s t ≡ true) × (text_leb t s ≡ true) = ground (arith, h, k) in
    ap₂ String.◌∷◌ (codes_equal c d (ground (arith, heads))) (text_leb_antisymm s t tails.0 tails.1)

unfoldable pub insert_sorted : String → List String → List String
insert_sorted a [] = a ∷ []
insert_sorted a (b ∷ l) =
    let rest = insert_sorted a l in if text_leb a b then a ∷ (b ∷ l) else b ∷ rest

-- sort.Strings: the sorted list, which does not depend on how it is found.
unfoldable pub sort : List String → List String
unfolding insert_sorted
sort = foldr insert_sorted []

insert_below :
    (a b : String) (l : List String)
    → text_leb a b ≡ true
    → text_leb b a ≡ false
    → insert_sorted a (insert_sorted b l) ≡ insert_sorted b (insert_sorted a l)
unfolding insert_sorted
insert_below a b [] h k = ground (arith, h, k)
insert_below a b (c ∷ l) h k = ground (arith, h, k, text_leb_trans a b c h, insert_below a b l h k)

insert_sorted_comm :
    (a b : String) (l : List String)
    → insert_sorted a (insert_sorted b l) ≡ insert_sorted b (insert_sorted a l)
insert_sorted_comm a b l = elim (Bool-cases (text_leb a b)) [
  | inr later ↦ sym (insert_below b a l (text_leb_total a b later) later)
  | inl below ↦ elim (Bool-cases (text_leb b a)) [
    | inr strict ↦ insert_below a b l below strict
    | inl above ↦ rw (text_leb_antisymm a b below above) refl
  ]
]

String_set : IsSet String
String_set = hedberg λ a b. elim (Bool-cases (a == b)) [
  | inl same ↦ yes ((eq_iff a b).0 same)
  | inr other ↦ no (λ e. cc (other, (eq_iff a b).1 e))
]

-- Sorting forgets the order.
pub sort_perm : {l m : List String} → Perm l m → sort l ≡ sort m
unfolding sort
sort_perm p = Perm.foldr-eq (hlevel (String_set)) insert_sorted insert_sorted_comm p []
