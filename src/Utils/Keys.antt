-- ===== src/Utils/Keys.antt =====
-- internal/utils/utils.go: the checks and the printing of the configured keys, the namespaces of the
-- cache, and the check for the VPA resource.
pub mod Nodup
pub mod Laws
mod Tests
use Prim.Native.String.{◌++◌}
use autovpa.Common.{
  String, Bool, Option, none, some, List, [], ◌∷◌, map, Map, Entries, entries, lookup, insert,
  index, if◌then◌else◌,
}
use autovpa.Kube.{Error, Result, ok, err, failure, wrapped}
use autovpa.Utils.Sort.{sort}

-- The keys in the order in which `range` visits them.
abbrev pub names_of : Entries String → List String
names_of l = map (λ e. e.0) l

-- The loop over the sorted names; `seen` maps a value to the name that has it.
unfoldable pub unique_loop :
    (keys : Map String) → (seen : Entries String) → List String → Result (Unit {0})
unfolding lookup insert index
unique_loop keys seen [] = ok tt
unique_loop keys seen (k ∷ names) =
    let v = index keys k in
    let rest = unique_loop keys (insert v k seen) names in
    elim (lookup v seen) [
      | some dup ↦
          err (failure ("duplicate key value " ++ v ++ " found for keys " ++ dup ++ " and " ++ k))
      | none ↦ rest
    ]

abbrev unless_empty : List String → Result (Unit {0}) → Result (Unit {0})
unless_empty [] r = err (failure "no keys provided")
unless_empty (_ ∷ _) r = r

unfoldable pub validate_unique_keys : Map String → Result (Unit {0})
unfolding unique_loop sort
validate_unique_keys keys =
    let names = names_of (entries keys) in unless_empty names (unique_loop keys [] (sort names))

-- strings.Join
unfoldable pub join : List String → (sep : String) → String
join [] sep = ""
join (s ∷ []) sep = s
join (s ∷ (t ∷ l)) sep = s ++ sep ++ join (t ∷ l) sep

unfoldable pub format_keys : Map String → String
unfolding join sort
format_keys m = join (sort (map (λ e. e.0 ++ "=" ++ e.1) (entries m))) ", "

-- cache.Options: the namespaces of DefaultNamespaces, or all of them
pub data CacheOptions : Type 0 where
  all_namespaces : CacheOptions
  only : List String → CacheOptions

-- The keys of the map that the loop fills: one for each namespace, however often it is given.
unfoldable pub namespace_keys : List String → Entries (Unit {0}) → Entries (Unit {0})
unfolding insert
namespace_keys [] m = m
namespace_keys (ns ∷ namespaces) m = namespace_keys namespaces (insert ns tt m)

unfoldable pub to_cache_options : (watch_namespaces : List String) → CacheOptions
unfolding namespace_keys
to_cache_options [] = all_namespaces
to_cache_options (ns ∷ namespaces) = only (map (λ e. e.0) (namespace_keys (ns ∷ namespaces) []))

-- The discovery client and the REST mapper that EnsureVPAResource builds from a configuration.
pub record Discovery (RestConfig : Type 0) : Type 0 where
  pub new_client : RestConfig → Result (Unit {0})
  -- RESTMapping of the group, the kind and the version
  pub rest_mapping : RestConfig → (group kind version : String) → Result (Unit {0})
  -- meta.IsNoMatchError
  pub is_no_match : Error → Bool

module _ {RestConfig : Type 0} (discovery : Discovery RestConfig) (cfg : RestConfig) where
  abbrev mapped : Result (Unit {0}) → Result (Unit {0})
  mapped (ok _) = ok tt
  mapped (err e) =
      if discovery.is_no_match e
      then err (wrapped "verticalpodautoscaler CRD not installed" e)
      else err (wrapped "discover verticalpodautoscaler CRD" e)

  abbrev connected : Result (Unit {0}) → Result (Unit {0})
  connected (err e) = err (wrapped "create discovery client" e)
  connected (ok _) =
      mapped (discovery.rest_mapping cfg "autoscaling.k8s.io" "VerticalPodAutoscaler" "v1")

  unfoldable pub ensure_vpa_resource : Result (Unit {0})
  ensure_vpa_resource = connected (discovery.new_client cfg)
