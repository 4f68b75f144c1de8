-- ===== src/Utils/Keys/Laws.antt =====
-- What ValidateUniqueKeys of internal/utils/utils.go accepts, and that FormatKeys is deterministic.
use mathlib.Core.List.{Perm}
use mathlib.Core.List.Perm
use autovpa.Common.{
  elem, String, true, false, inl, inr, none, some, List, [], ◌∷◌, Map, Entries, entries, lookup,
  insert, lookup-insert, index, index?, IsMap, if◌then◌else◌, ◌≡◌, ◌≢◌, ◌↔◌, refl, sym, ap, ◌∙◌,
  arith, eq_iff, ◌==◌, Option-cases,
}
use autovpa.Kube.{Result, ok}
use autovpa.Utils.Sort.{sort, sort_perm}
use autovpa.Utils.Keys.Nodup.{
  NoDup, sort-NoDup, elem-sort, elem-cases, elem_head, elem_later, elem-names_of, elem_of_lookup,
  names_of-NoDup,
}
use autovpa.Utils.Keys.{
  names_of, unique_loop, unless_empty, validate_unique_keys, join, format_keys,
}

-- FormatKeys prints the same for every order in which the map may be visited.
pub format_keys_perm :
    (l m : Entries String) → Perm l m → format_keys (some l) ≡ format_keys (some m)
unfolding format_keys
format_keys_perm l m p = ap (λ s. join s ", ") (sort_perm (Perm.map _ p))

unless_empty_iff :
    (l : Entries String) (r : Result (Unit {0}))
    → (unless_empty (names_of l) r ≡ ok tt) ↔ ((l ≢ []) × (r ≡ ok tt))
unless_empty_iff [] r = (λ h. absurd (ground (arith, h)), λ h. absurd (h.0 refl))
unless_empty_iff (e ∷ l) r = (λ h. (λ same. cc same, h), λ h. h.1)

module _ (keys : Map String) where
  -- The names have different values, none of which has been seen.
  record IsFresh (seen : Entries String) (names : List String) : Type 0 where
    unseen : (j : String) → elem j names ≡ true → lookup (index keys j) seen ≡ none
    distinct :
        (i j : String)
        → elem i names ≡ true
        → elem j names ≡ true
        → index keys i ≡ index keys j
        → i ≡ j

  IsFresh-cons :
      (seen : Entries String) (k : String) (names : List String)
      → lookup (index keys k) seen ≡ none
      → IsFresh (insert (index keys k) k seen) names
      → IsFresh seen (k ∷ names)
  IsFresh-cons seen k names new f = record { unseen = unseen; distinct = distinct }
    where
      inserted :
          (j : String)
          → lookup (index keys j) (insert (index keys k) k seen)
            ≡ (if index keys k == index keys j then some k else lookup (index keys j) seen)
      inserted j = lookup-insert (index keys k) (index keys j) k seen

      other : (j : String) → elem j names ≡ true → index keys k ≢ index keys j
      other j e same =
          ground (arith, inserted j, f.unseen j e, (eq_iff (index keys k) (index keys j)).1 same)

      unseen : (j : String) → elem j (k ∷ names) ≡ true → lookup (index keys j) seen ≡ none
      unseen j e = elim (elem-cases j k names e) [
        | inl same ↦ rw (← same) new
        | inr later ↦ ground (arith, inserted j, f.unseen j later)
      ]

      distinct :
          (i j : String)
          → elem i (k ∷ names) ≡ true
          → elem j (k ∷ names) ≡ true
          → index keys i ≡ index keys j
          → i ≡ j
      distinct i j e g same = elim (elem-cases i k names e) [
        | inl here ↦ elim (elem-cases j k names g) [
          | inl there ↦ sym here ∙ there
          | inr later ↦ absurd (other j later (ap (index keys) here ∙ same))
        ]
        | inr early ↦ elim (elem-cases j k names g) [
          | inl there ↦ absurd (other i early (ap (index keys) there ∙ sym same))
          | inr later ↦ f.distinct i j early later same
        ]
      ]

  IsFresh-tail :
      (seen : Entries String) (k : String) (names : List String)
      → elem k names ≡ false
      → IsFresh seen (k ∷ names)
      → IsFresh (insert (index keys k) k seen) names
  IsFresh-tail seen k names once f = record {
    unseen = λ j e.
        let apart : index keys k ≢ index keys j = λ same.
          let twice = f.distinct k j (elem_head k names) (elem_later j k names e) same in
          cc (twice, once, e) in
        ground (
          arith,
          apart,
          eq_iff (index keys k) (index keys j),
          lookup-insert (index keys k) (index keys j) k seen,
          f.unseen j (elem_later j k names e),
        );
    distinct =
        λ i j e g same. f.distinct i j (elem_later i k names e) (elem_later j k names g) same;
  }

  unique_loop_iff :
      (seen : Entries String) (names : List String)
      → NoDup names
      → (unique_loop keys seen names ≡ ok tt) ↔ IsFresh seen names
  unfolding unique_loop
  unique_loop_iff seen [] n = (
    λ h. record { unseen = λ j e. ground arith; distinct = λ i j e f g. ground arith },
    λ h. refl,
  )
  unique_loop_iff seen (k ∷ names) n =
      let v = index keys k in
      let (sound, complete) = unique_loop_iff (insert v k seen) names n.1 in
      elim (Option-cases (lookup v seen)) [
        | inr (dup, found) ↦
            rw (found, unique_loop)
              (
                λ h. cc h,
                λ f. let none_yet = f.unseen k (elem_head k names) in cc (none_yet, found),
              )
        | inl new ↦
            rw (new, unique_loop)
              (
                λ h. IsFresh-cons seen k names new (sound h),
                λ f. complete (IsFresh-tail seen k names n.0 f),
              )
      ]

  -- Different names have different values.
  abbrev pub HasDistinctValues : Type 0
  HasDistinctValues = (i j v : String) → index? keys i ≡ some v → index? keys j ≡ some v → i ≡ j

  listed : (i v : String) → index? keys i ≡ some v → elem i (sort (names_of (entries keys))) ≡ true
  unfolding index?
  listed i v h =
      ground (arith, h, elem-sort i (names_of (entries keys)), elem-names_of i (entries keys))

  valued :
      (i : String)
      → elem i (sort (names_of (entries keys))) ≡ true
      → (v : String) × (index? keys i ≡ some v)
  unfolding index?
  valued i e = elim (Option-cases (lookup i (entries keys))) [
    | inr found ↦ found
    | inl missing ↦ absurd (
        ground (
          arith,
          e,
          elem-sort i (names_of (entries keys)),
          elem_of_lookup i (entries keys) missing,
        ))
  ]

  index_of : (i v : String) → index? keys i ≡ some v → index keys i ≡ v
  unfolding index index?
  index_of i v h = ground (arith, h)

  IsFresh-iff : IsFresh [] (sort (names_of (entries keys))) ↔ HasDistinctValues
  unfolding lookup
  IsFresh-iff = (
    λ f i j v here there.
        f.distinct i j (listed i v here) (listed j v there)
          (index_of i v here ∙ sym (index_of j v there)),
    λ f. record {
      unseen = λ j e. refl;
      distinct = λ i j e g same.
          let (v, here) = valued i e in
          let (w, there) = valued j g in
          let equal : v ≡ w = sym (index_of i v here) ∙ (same ∙ index_of j w there) in
          f i j v here (there ∙ ap some (sym equal));
    },
  )

  -- At least one key is given.
  abbrev pub IsNonEmpty : Type 0
  IsNonEmpty = entries keys ≢ []

  -- ValidateUniqueKeys accepts a map, which has every name once, exactly when it has an entry and
  -- no two names have the same value.
  pub validate_unique_keys_iff :
      IsMap (entries keys) → (validate_unique_keys keys ≡ ok tt) ↔ (IsNonEmpty × HasDistinctValues)
  unfolding validate_unique_keys
  validate_unique_keys_iff m =
      let once = sort-NoDup (names_of (entries keys)) (names_of-NoDup (entries keys) m) in
      let (sound, complete) = unique_loop_iff [] (sort (names_of (entries keys))) once in
      let (kept, given) =
        unless_empty_iff (entries keys) (unique_loop keys [] (sort (names_of (entries keys)))) in
      (
        λ h. ((kept h).0, IsFresh-iff.0 (sound (kept h).1)),
        λ h. given (h.0, complete (IsFresh-iff.1 h.1)),
      )
