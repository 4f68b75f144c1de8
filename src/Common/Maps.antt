-- ===== src/Common/Maps.antt =====
-- Go's `map[string]V`: `none` is the nil map, and `some l` a map with the entries of `l`, which
-- has each key once (`IsMap`). Iteration order is the order of the list, which no code may rely on.
use Prim.Native.String.{String}
use mathlib.Core.Path.{◌≡◌, refl}
use mathlib.Core.Bool.{Bool, true, false, ◌&&◌}
use mathlib.Core.Option.{Option, none, some}
use mathlib.Core.List.{List, [], ◌∷◌}
use native.Mathlib.Omega.{arith}
use text.Mathlib.Text.{◌==◌}
use text.Mathlib.TextEquality.{eq_iff}
use autovpa.Common.Logic.{if◌then◌else◌, nat_eq, length, eq_self}

abbrev pub Entries {ℓ} : Type ℓ → Type ℓ
Entries V = List (String × V)

abbrev pub Map {ℓ} : Type ℓ → Type ℓ
Map V = Option (Entries V)

module _ {ℓ} {V : Type ℓ} where
  unfoldable pub lookup : String → Entries V → Option V
  lookup k [] = none
  lookup k ((j, v) ∷ l) = if j == k then some v else lookup k l

  unfoldable pub insert : String → V → Entries V → Entries V
  insert k v [] = (k, v) ∷ []
  insert k v ((j, w) ∷ l) = if j == k then (j, v) ∷ l else (j, w) ∷ insert k v l

  -- maps.Copy(out, m)
  unfoldable pub copy : Entries V → Entries V → Entries V
  unfolding insert
  copy out [] = out
  copy out ((k, v) ∷ m) = copy (insert k v out) m

  -- the entries that `range m` visits
  abbrev pub entries : Map V → Entries V
  entries none = []
  entries (some l) = l

  -- `v, ok := m[k]`
  unfoldable pub index? : Map V → String → Option V
  unfolding lookup
  index? m k = lookup k (entries m)

  -- No key stands twice.
  abbrev pub IsMap : Entries V → Type ℓ
  IsMap [] = Unit
  IsMap ((k, v) ∷ l) = (lookup k l ≡ none) × IsMap l

-- What `v, ok := m[k]` leaves in `v`: the empty text if the key is missing.
abbrev pub or_empty : Option String → String
or_empty none = ""
or_empty (some v) = v

-- `m[k]`
unfoldable pub index : Map String → String → String
unfolding index?
index m k = or_empty (index? m k)

-- The loop of maps.Equal: every entry of the first map stands in the second.
unfoldable pub entries_in : Entries String → Entries String → Bool
unfolding lookup
entries_in [] l = true
entries_in ((k, v) ∷ m) l = elim (lookup k l) [
  | none ↦ false
  | some w ↦ if v == w then entries_in m l else false
]

-- maps.Equal
unfoldable pub maps_equal : Map String → Map String → Bool
unfolding entries_in
maps_equal a b =
    nat_eq (length (entries a)) (length (entries b)) && entries_in (entries a) (entries b)

module _ {ℓ} {V : Type ℓ} where
  pub lookup-insert :
      (k j : String) (v : V) (l : Entries V)
      → lookup j (insert k v l) ≡ (if k == j then some v else lookup j l)
  unfolding lookup insert
  lookup-insert k j v [] = refl
  lookup-insert k j v ((i, w) ∷ l) =
      ground (arith, eq_iff k j, eq_iff i k, eq_iff i j, lookup-insert k j v l)

  abbrev pub or_else : Option V → Option V → Option V
  or_else none o = o
  or_else (some v) o = some v

  -- In a copy the entries of the source win.
  pub lookup-copy :
      (j : String) (out m : Entries V)
      → IsMap m
      → lookup j (copy out m) ≡ or_else (lookup j m) (lookup j out)
  unfolding lookup copy
  lookup-copy j out [] h = refl
  lookup-copy j out ((k, v) ∷ m) h =
      ground (arith, h.0, eq_iff k j, lookup-copy j (insert k v out) m h.1, lookup-insert k j v out)

  pub insert-IsMap : (k : String) (v : V) (l : Entries V) → IsMap l → IsMap (insert k v l)
  unfolding insert lookup
  insert-IsMap k v [] h = (refl, tt)
  insert-IsMap k v ((j, w) ∷ l) h =
      ground (arith, eq_iff j k, eq_iff k j, lookup-insert k j v l, insert-IsMap k v l h.1)

  pub copy-IsMap : (out m : Entries V) → IsMap out → IsMap (copy out m)
  unfolding copy
  copy-IsMap out [] h = h
  copy-IsMap out ((k, v) ∷ m) h = copy-IsMap (insert k v out) m (insert-IsMap k v out h)

  -- A write of the value that stands there changes nothing.
  pub insert_self : (k : String) (v : V) (l : Entries V) → lookup k l ≡ some v → insert k v l ≡ l
  unfolding insert lookup
  insert_self k v [] h = cc
  insert_self k v ((j, w) ∷ l) h = ground (arith, insert_self k v l)

-- An entry of a map that stands behind other entries is found there.
entries_in-cons :
    (k v : String) (m l : Entries String)
    → lookup k m ≡ none
    → entries_in m l ≡ true
    → entries_in m ((k, v) ∷ l) ≡ true
unfolding entries_in lookup
entries_in-cons k v [] l h e = refl
entries_in-cons k v ((j, w) ∷ m) l h e =
    ground (arith, eq_iff k j, eq_iff j k, entries_in-cons k v m l)

entries_in_self : (l : Entries String) → IsMap l → entries_in l l ≡ true
unfolding entries_in lookup
entries_in_self [] h = refl
entries_in_self ((k, v) ∷ l) h =
    ground (arith, eq_self k, eq_self v, entries_in-cons k v l l h.0 (entries_in_self l h.1))

pub maps_equal_self : (m : Map String) → IsMap (entries m) → maps_equal m m ≡ true
unfolding maps_equal
maps_equal_self none h = refl
maps_equal_self (some l) h = ground (arith, entries_in_self l h)
