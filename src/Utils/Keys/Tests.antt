-- ===== src/Utils/Keys/Tests.antt =====
-- The functions of Utils/Keys at the keys of the program, and the theorems about them there.
use mathlib.Core.List.Perm
use autovpa.Common.{some, [], ◌∷◌, ◌≡◌, ◌∙◌, ◌↔◌, refl, Map, Entries, String, lookup}
use autovpa.Kube.{ok, err, failure}
use autovpa.Utils.Sort.{text_leb}
use autovpa.Utils.Keys.{validate_unique_keys, format_keys, to_cache_options, all_namespaces, only}
use autovpa.Utils.Keys.Laws.{
  format_keys_perm, IsNonEmpty, HasDistinctValues, validate_unique_keys_iff,
}

abbrev managed_profile : Entries String
managed_profile = ("Managed", "a/managed") ∷ ("Profile", "a/profile") ∷ []

abbrev profile_managed : Entries String
profile_managed = ("Profile", "a/profile") ∷ ("Managed", "a/managed") ∷ []

abbrev same_value : Map String
same_value = some (("Profile", "x") ∷ ("Managed", "x") ∷ [])

format_keys_runs : format_keys (some profile_managed) ≡ "Managed=a/managed, Profile=a/profile"
unfolding format_keys text_leb
format_keys_runs = refl

duplicate_runs :
    validate_unique_keys same_value
    ≡ err (failure "duplicate key value x found for keys Managed and Profile")
unfolding validate_unique_keys text_leb
duplicate_runs = refl

namespaces_run :
    (to_cache_options ("a" ∷ "b" ∷ "a" ∷ []) ≡ only ("a" ∷ "b" ∷ []))
    × (to_cache_options [] ≡ all_namespaces)
unfolding to_cache_options
namespaces_run = (refl, refl)

format_keys_in_any_order :
    format_keys (some managed_profile) ≡ "Managed=a/managed, Profile=a/profile"
format_keys_in_any_order =
    format_keys_perm managed_profile profile_managed (Perm.swap _ _ _) ∙ format_keys_runs

validate_unique_keys_iff_example :
    (validate_unique_keys (some managed_profile) ≡ ok tt)
    ↔ (IsNonEmpty (some managed_profile) × HasDistinctValues (some managed_profile))
unfolding lookup
validate_unique_keys_iff_example =
    validate_unique_keys_iff (some managed_profile) (refl, (refl, tt))
