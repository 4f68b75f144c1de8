-- ===== src/Utils/Maps.antt =====
-- MergeMaps of internal/utils/utils.go
use autovpa.Common.{
  String, none, some, eq_self, eq_iff, ap, ◌∙◌, [], ◌∷◌, ◌≡◌, refl, Map, Entries, entries, lookup,
  copy, index?, or_else, lookup-copy, IsMap, copy-IsMap, arith, insert_self,
}
use autovpa.Utils.{merge_maps}

-- A key of the merged map has its value in `b`, and where `b` has none its value in `a`, nil maps
-- included. No key may stand twice in `b`.
pub index?-merge_maps :
    (a b : Map String) (k : String)
    → IsMap (entries b)
    → index? (merge_maps a b) k ≡ or_else (index? b k) (index? a k)
unfolding merge_maps index?
index?-merge_maps (some a) b k h = lookup-copy k a (entries b) h
index?-merge_maps none none k h = refl
index?-merge_maps none (some []) k h = refl
index?-merge_maps none (some (e ∷ b)) k h = lookup-copy k [] (e ∷ b) h

pub merge_maps-IsMap : (a b : Map String) → IsMap (entries a) → IsMap (entries (merge_maps a b))
unfolding merge_maps
merge_maps-IsMap (some a) b h = copy-IsMap a (entries b) h
merge_maps-IsMap none none h = tt
merge_maps-IsMap none (some []) h = tt
merge_maps-IsMap none (some (e ∷ b)) h = copy-IsMap [] (e ∷ b) tt

-- Every entry of `m` stands in `out`.
abbrev pub Holds : Entries String → Entries String → Type 0
Holds out [] = Unit
Holds out ((k, v) ∷ m) = (lookup k out ≡ some v) × Holds out m

pub copy_held : (out m : Entries String) → Holds out m → copy out m ≡ out
unfolding copy
copy_held out [] h = refl
copy_held out ((k, v) ∷ m) h = rw (insert_self k v out h.0) (copy_held out m h.1)

pub Holds-of_lookup :
    (out m : Entries String)
    → IsMap m
    → ((k v : String) → lookup k m ≡ some v → lookup k out ≡ some v)
    → Holds out m
unfolding lookup
Holds-of_lookup out [] h f = tt
Holds-of_lookup out ((k, v) ∷ m) h f = (
  f k v (ground (arith, eq_self k)),
  Holds-of_lookup out m h.1 (λ j w e. f j w (ground (arith, h.0, eq_iff k j))),
)

copy_again : (out m : Entries String) → IsMap m → copy (copy out m) m ≡ copy out m
copy_again out m h = copy_held (copy out m) m (
    Holds-of_lookup (copy out m) m h
      (λ k v e. lookup-copy k out m h ∙ ap (λ o. or_else o (lookup k out)) e))

-- Merging the same map once more changes nothing. No key may stand twice in it.
pub merge_maps_again :
    (a b : Map String) → IsMap (entries b) → merge_maps (merge_maps a b) b ≡ merge_maps a b
unfolding merge_maps
merge_maps_again (some a) b h = ap some (copy_again a (entries b) h)
merge_maps_again none none h = refl
merge_maps_again none (some []) h = refl
merge_maps_again none (some (e ∷ b)) h = ap some (copy_again [] (e ∷ b) h)
