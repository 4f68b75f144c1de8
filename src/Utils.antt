-- ===== src/Utils.antt =====
-- internal/utils/utils.go: the helpers on maps and defaults. The children have the functions on
-- texts and the rendering of names.
pub mod Strings
pub mod Sort
pub mod Keys
pub mod Names
pub mod Maps
pub mod Merged
pub mod Dns
pub mod Truncate
mod Tests
use autovpa.Common.{
  String, Bool, true, false, none, some, [], ◌∷◌, Map, Entries, copy, entries, ◌==◌, if◌then◌else◌,
}

-- DefaultIfZero, at strings
unfoldable pub default_if_zero : (v def : String) → String
default_if_zero v def = if v == "" then def else v

-- `len(b) == 0`
abbrev is_empty : Map String → Bool
is_empty none = true
is_empty (some []) = true
is_empty (some (_ ∷ _)) = false

-- A nil `a` gives nil or a new map; any other is cloned. Then the entries of `b` are copied in.
unfoldable pub merge_maps : Map String → Map String → Map String
unfolding copy
merge_maps none b = if is_empty b then none else some (copy [] (entries b))
merge_maps (some a) b = some (copy a (entries b))
