-- ===== src/Utils/Merged.antt =====
-- When MergeMaps of internal/utils/utils.go changes nothing, as maps.Equal sees it.
use autovpa.Common.{
  String, Option-cases, ap, inl, inr, true, some, none, eq_iff, ◌≡◌, ◌≢◌, ◌↔◌, refl, ◌≤◌, [], ◌∷◌,
  Map, Entries, entries, lookup, insert, copy, index?, lookup-insert, lookup-copy, IsMap, arith,
  length, entries_in, maps_equal, maps_equal_self,
}
use autovpa.Utils.{merge_maps}
use autovpa.Utils.Maps.{copy_held, Holds-of_lookup}

entries-merge_maps : (a b : Map String) → entries (merge_maps a b) ≡ copy (entries a) (entries b)
unfolding merge_maps copy
entries-merge_maps (some a) b = refl
entries-merge_maps none none = refl
entries-merge_maps none (some []) = refl
entries-merge_maps none (some (e ∷ b)) = refl

-- An insertion that does not lengthen the list found its key.
length-insert :
    (k v : String) (l : Entries String)
    → (length l ≤ length (insert k v l)) × (length (insert k v l) ≡ length l → lookup k l ≢ none)
unfolding insert lookup
length-insert k v [] = ground arith
length-insert k v ((j, w) ∷ l) = ground (arith, length-insert k v l)

length-copy : (out m : Entries String) → length out ≤ length (copy out m)
unfolding copy
length-copy out [] = omega arith
length-copy out ((k, v) ∷ m) =
    omega (arith, (length-insert k v out).0, length-copy (insert k v out) m)

copy-keys :
    (out m : Entries String)
    → length (copy out m) ≡ length out
    → (j v : String) → lookup j m ≡ some v
    → lookup j out ≢ none
unfolding copy lookup
copy-keys out [] e j v h = ground arith
copy-keys out ((k, w) ∷ m) e j v h =
    let (longer, found) = length-insert k w out in
    let rest = length-copy (insert k w out) m in
    ground (
      arith,
      found,
      longer,
      rest,
      eq_iff k j,
      lookup-insert k j w out,
      copy-keys (insert k w out) m (omega (arith, e, longer, rest)) j v,
    )

entries_in-lookup :
    (m l : Entries String) (k v : String)
    → entries_in m l ≡ true
    → lookup k m ≡ some v
    → lookup k l ≡ some v
unfolding entries_in lookup
entries_in-lookup [] l k v h e = ground arith
entries_in-lookup ((j, w) ∷ m) l k v h e =
    let same = λ (q : j ≡ k). ap (λ s. lookup s l) q in
    elim (Option-cases (lookup j l)) [
      | inl missing ↦ ground (arith, missing)
      | inr (x, found) ↦
          ground (arith, found, same, eq_iff j k, eq_iff w x, entries_in-lookup m l k v)
    ]

-- What maps.Equal found on a map and its merge.
equal-merged :
    (a b : Map String)
    → maps_equal a (merge_maps a b) ≡ true
    → (length (copy (entries a) (entries b)) ≡ length (entries a))
      × (entries_in (entries a) (copy (entries a) (entries b)) ≡ true)
unfolding maps_equal
equal-merged a b h =
    let same = entries-merge_maps a b in
    let longer = ap length same in
    let held = ap (entries_in (entries a)) same in (ground (arith, longer), ground (arith, held))

-- Merging leaves a map as it is, for maps.Equal, exactly when the map already has the other's
-- entries. No key may stand twice in either map.
pub maps_equal-merge_maps_iff :
    (a b : Map String)
    → IsMap (entries a)
    → IsMap (entries b)
    → (maps_equal a (merge_maps a b) ≡ true)
      ↔ ((k v : String) → index? b k ≡ some v → index? a k ≡ some v)
unfolding index? maps_equal
maps_equal-merge_maps_iff a b ha hb = (forward, backward)
  where
    forward :
        maps_equal a (merge_maps a b) ≡ true
        → (k v : String) → lookup k (entries b) ≡ some v
        → lookup k (entries a) ≡ some v
    forward h k v e =
        let (longer, held) = equal-merged a b h in
        elim (Option-cases (lookup k (entries a))) [
          | inl missing ↦ absurd (copy-keys (entries a) (entries b) longer k v e missing)
          | inr (x, found) ↦
              let kept = entries_in-lookup (entries a) _ k x held found in
              let copied = lookup-copy k (entries a) (entries b) hb in
              ground (arith, found, kept, copied, e)
        ]

    backward :
        ((k v : String) → lookup k (entries b) ≡ some v → lookup k (entries a) ≡ some v)
        → maps_equal a (merge_maps a b) ≡ true
    backward f =
        let same =
          copy_held (entries a) (entries b) (Holds-of_lookup (entries a) (entries b) hb f) in
        let self = maps_equal_self a ha in rw (entries-merge_maps a b, same) self
