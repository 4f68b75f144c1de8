-- ===== src/System/Memory.antt =====
-- VPAs in memory: a list, in which the first one of a key counts.
pub mod Server
use mathlib.Core.Path.{subst}
use autovpa.Common.{
  Bool, In, String, true, false, ◌&&◌, Option, none, some, List, [], ◌∷◌, ◌≡◌, ◌≢◌, refl, sym, ap,
  ◌∙◌, ◌==◌, eq_iff, arith, index, index?, lookup, insert, lookup-insert, insert-IsMap, IsMap,
  entries, Entries, Map, All, All-map, inl, inr, Bool-cases, if◌then◌else◌, and_true, eq_self,
}
use autovpa.Kube.{Object, NamespacedName, not_found, Result, ok, err, Client, spec_of}
use autovpa.Kube.Json.{value_equal_iff}
use autovpa.Kube.Laws.{AnswersKey}
use autovpa.Controller.{empty_object}
use autovpa.System.{key_of, IsFresh, IsComplete, IsConsistent, IsApplying, KeepsOwners, IsApiServer}
use autovpa.System.Calls.{some-injective}
use autovpa.Samples.{has_key, sample_platform}

-- A map with the first entry of each key.
unfoldable pub once : Entries String → Entries String
once [] = []
once ((k, v) ∷ l) = insert k v (once l)

lookup-once : (j : String) (l : Entries String) → lookup j (once l) ≡ lookup j l
unfolding once lookup
lookup-once j [] = refl
lookup-once j ((k, v) ∷ l) = rw (lookup-insert k j v (once l), lookup-once j l) refl

once-IsMap : (l : Entries String) → IsMap (once l)
unfolding once
once-IsMap [] = tt
once-IsMap ((k, v) ∷ l) = insert-IsMap k v (once l) (once-IsMap l)

abbrev pub labels_once : Map String → Map String
labels_once none = none
labels_once (some l) = some (once l)

labels_once-IsMap : (m : Map String) → IsMap (entries (labels_once m))
labels_once-IsMap none = tt
labels_once-IsMap (some l) = once-IsMap l

pub index?-labels_once : (m : Map String) (k : String) → index? (labels_once m) k ≡ index? m k
unfolding index?
index?-labels_once none k = refl
index?-labels_once (some l) k = lookup-once k l

abbrev pub shown : Object → Object
shown x = record x { labels = labels_once x.labels }

unfoldable pub stored : List Object → NamespacedName → Option Object
unfolding once
stored [] k = none
stored (x ∷ l) k = let rest = stored l k in if has_key k x then some (shown x) else rest

unfoldable pub without : NamespacedName → List Object → List Object
without k [] = []
without k (x ∷ l) = let rest = without k l in if has_key k x then rest else x ∷ rest

unfoldable pub listed : (ns label value : String) → List Object → List Object
unfolding once without
listed ns label value [] = []
listed ns label value (x ∷ l) =
    let rest = without (key_of x) (listed ns label value l) in
    if (x.namespace == ns) && (index (shown x).labels label == value) then shown x ∷ rest else rest

pub has_key_lem : (k : NamespacedName) (x : Object) → has_key k x ≡ true → key_of x ≡ k
has_key_lem k x h =
    let (n, s) = and_true (x.name == k.name) (x.namespace == k.namespace) h in
    cc ((eq_iff x.name k.name).0 n, (eq_iff x.namespace k.namespace).0 s)

pub has_key_self : (x : Object) → has_key (key_of x) x ≡ true
has_key_self x = ground (arith, eq_self x.name, eq_self x.namespace)

pub has_key_other : (k : NamespacedName) (x : Object) → key_of x ≢ k → has_key k x ≡ false
has_key_other k x other = elim (Bool-cases (has_key k x)) [
  | inl same ↦ absurd (other (has_key_lem k x same))
  | inr apart ↦ apart
]

has_key_apart : (x o : Object) → has_key (key_of x) o ≡ false → has_key (key_of o) x ≡ false
has_key_apart x o apart = has_key_other (key_of o) x (λ same.
    let found : has_key (key_of x) o ≡ true =
      subst (λ k. has_key k o ≡ true) (sym same) (has_key_self o) in
    let e : false ≡ true = sym apart ∙ found in cc e)

-- The first VPA of the key is the one that is stored.
shown_lem :
    (x : Object) (k : NamespacedName) (w : List Object) (o : Object)
    → has_key k x ≡ true
    → stored (x ∷ w) k ≡ some o
    → shown x ≡ o
unfolding stored
shown_lem x k w o same h = some-injective (sym (rw same refl) ∙ h)

pub stored-HasKey :
    (w : List Object) (k : NamespacedName) (o : Object) → stored w k ≡ some o → key_of o ≡ k
unfolding stored
stored-HasKey [] k o h = cc h
stored-HasKey (x ∷ w) k o h = elim (Bool-cases (has_key k x)) [
  | inl same ↦ ap key_of (sym (shown_lem x k w o same h)) ∙ has_key_lem k x same
  | inr apart ↦ stored-HasKey w k o (sym (rw apart refl) ∙ h)
]

pub stored-IsMap :
    (w : List Object) (k : NamespacedName) (o : Object)
    → stored w k ≡ some o
    → IsMap (entries o.labels)
unfolding stored
stored-IsMap [] k o h = cc h
stored-IsMap (x ∷ w) k o h = elim (Bool-cases (has_key k x)) [
  | inl same ↦
      subst (λ (y : Object). IsMap (entries y.labels)) (shown_lem x k w o same h)
        (labels_once-IsMap x.labels)
  | inr apart ↦ stored-IsMap w k o (sym (rw apart refl) ∙ h)
]

pub stored-without_self : (k : NamespacedName) (w : List Object) → stored (without k w) k ≡ none
unfolding stored without
stored-without_self k [] = refl
stored-without_self k (x ∷ w) = elim (Bool-cases (has_key k x)) [
  | inl same ↦ rw same (stored-without_self k w)
  | inr apart ↦ rw (apart, apart) (stored-without_self k w)
]

pub stored-without_other :
    (k k' : NamespacedName) (w : List Object) → k' ≢ k → stored (without k' w) k ≡ stored w k
unfolding stored without
stored-without_other k k' [] other = refl
stored-without_other k k' (x ∷ w) other = elim (Bool-cases (has_key k' x)) [
  | inl gone ↦
      let apart : has_key k x ≡ false =
        has_key_other k x (λ same. other (sym (has_key_lem k' x gone) ∙ same)) in
      rw (gone, apart) (stored-without_other k k' w other)
  | inr kept ↦ elim (Bool-cases (has_key k x)) [
    | inl same ↦ rw (kept, same) refl
    | inr apart ↦ rw (kept, apart) (stored-without_other k k' w other)
  ]
]

some_is_not_none : {x : Object} → some x ≢ none
some_is_not_none h = cc h

pub stored-without-none :
    (k k' : NamespacedName) (w : List Object) → stored w k ≡ none → stored (without k' w) k ≡ none
unfolding stored without
stored-without-none k k' [] h = refl
stored-without-none k k' (x ∷ w) h = elim (Bool-cases (has_key k x)) [
  | inl same ↦ absurd (some_is_not_none {x = shown x} (sym (rw same refl) ∙ h))
  | inr apart ↦
      let rest = stored-without-none k k' w (sym (rw apart refl) ∙ h) in
      elim (Bool-cases (has_key k' x)) [
        | inl gone ↦ rw gone rest
        | inr kept ↦ rw (kept, apart) rest
      ]
]

-- What a list says of each VPA that it gives.
abbrev pub IsListed : (ns label value : String) → List Object → Object → Type 0
IsListed ns label value w o =
    (stored w (key_of o) ≡ some o) × (o.namespace ≡ ns) × (index o.labels label ≡ value)

All-without :
    (P : Object → Type 0) (k : NamespacedName) (l : List Object)
    → All P l
    → All (λ o. P o × (has_key k o ≡ false)) (without k l)
unfolding without
All-without P k [] h = tt
All-without P k (x ∷ l) h = elim (Bool-cases (has_key k x)) [
  | inl gone ↦ rw gone (All-without P k l h.1)
  | inr kept ↦ rw kept ((h.0, kept), All-without P k l h.1)
]

pub listed-IsListed :
    (ns label value : String) (w : List Object)
    → All (IsListed ns label value w) (listed ns label value w)
unfolding listed stored
listed-IsListed ns label value [] = tt
listed-IsListed ns label value (x ∷ w) =
    let rest =
      All-map (λ o. IsListed ns label value w o × (has_key (key_of x) o ≡ false))
        (IsListed ns label value (x ∷ w)) (without (key_of x) (listed ns label value w)) later
        (All-without (IsListed ns label value w) (key_of x) _ (listed-IsListed ns label value w)) in
    elim (Bool-cases ((x.namespace == ns) && (index (shown x).labels label == value))) [
      | inr other ↦ rw other rest
      | inl found ↦
          let (inside, labelled) =
            and_true (x.namespace == ns) (index (shown x).labels label == value) found in
          rw found (
            (
              rw (has_key_self x) refl,
              (eq_iff x.namespace ns).0 inside,
              (eq_iff (index (shown x).labels label) value).0 labelled,
            ),
            rest,
          )
    ]
  where
    later :
        (o : Object)
        → IsListed ns label value w o × (has_key (key_of x) o ≡ false)
        → IsListed ns label value (x ∷ w) o
    later o ((at, inside, labelled), apart) = (rw (has_key_apart x o apart) at, inside, labelled)

In-without :
    (k : NamespacedName) (l : List Object) (o : Object)
    → has_key k o ≡ false
    → In o l
    → In o (without k l)
unfolding without
In-without k [] o apart h = absurd h
In-without k (x ∷ l) o apart (inl same) =
    let kept : has_key k x ≡ false = subst (λ y. has_key k y ≡ false) (sym same) apart in
    rw kept (inl same)
In-without k (x ∷ l) o apart (inr later) = elim (Bool-cases (has_key k x)) [
  | inl gone ↦ rw gone (In-without k l o apart later)
  | inr kept ↦ rw kept (inr (In-without k l o apart later))
]

pub In-listed :
    (ns label value : String) (w : List Object) (o : Object)
    → IsListed ns label value w o
    → In o (listed ns label value w)
unfolding listed stored
In-listed ns label value [] o (at, _, _) = cc at
In-listed ns label value (x ∷ w) o (at, inside, labelled) =
    elim (Bool-cases (has_key (key_of o) x)) [
      | inl same ↦
          let it = shown_lem x (key_of o) w o same at in
          let here : (x.namespace == ns) ≡ true =
            (eq_iff x.namespace ns).1 (ap (λ (y : Object). y.namespace) it ∙ inside) in
          let has : (index (shown x).labels label == value) ≡ true =
            (eq_iff (index (shown x).labels label) value).1
              (ap (λ (y : Object). index y.labels label) it ∙ labelled) in
          rw (here, has) (inl it)
      | inr apart ↦
          let rest =
            In-without (key_of x) (listed ns label value w) o (has_key_apart o x apart)
              (In-listed ns label value w o (sym (rw apart refl) ∙ at, inside, labelled)) in
          elim (Bool-cases ((x.namespace == ns) && (index (shown x).labels label == value))) [
            | inr other ↦ rw other rest
            | inl found ↦ rw found (inr rest)
          ]
    ]
