-- ===== src/Config.antt =====
-- internal/config: profiles, the configuration that holds them, and its validation. Reading YAML is a
-- library's work.
pub mod Valid
pub mod Modes
pub mod Load
pub mod Unmarshal
pub mod Decoded
pub mod Inline
mod Tests
use Prim.Native.Char.{Char}
use Prim.Native.String.{◌++◌}
use autovpa.Common.{
  String, Bool, ◌||◌, Option, none, some, Map, Entries, List, [], ◌∷◌, index?, ◌==◌, if◌then◌else◌,
}
use autovpa.Kube.{VpaSpec, Result, ok, err, failure, wrapped}
use autovpa.Kube.Json.{Value, null, boolean, number, text, array, object}
use autovpa.Utils.{default_if_zero}
use autovpa.Utils.Strings.{trim_space}
use autovpa.Utils.Names.{NameTemplateData, TemplateEngine, to_lower, render_name_template}

-- ProfileSpec is VerticalPodAutoscalerSpec under another name.
abbrev pub ProfileSpec : Type 0
ProfileSpec = VpaSpec

pub record Profile : Type 0 where
  pub name_template : String
  pub spec : ProfileSpec

pub record Config : Type 0 where
  pub default_profile : String
  pub profiles : Map Profile

-- The switch on the folded text; `v` is the text as it was given.
unfoldable pub mode_of : (folded v : String) → String
mode_of folded v =
    if (folded == "true") || (folded == "on") || (folded == "auto")
    then "Recreate"
    else if (folded == "false") || (folded == "off")
    then "Off"
    else if folded == "initial"
    then "Initial"
    else if folded == "recreate"
    then "Recreate"
    else if folded == "inplaceorrecreate"
    then "InPlaceOrRecreate"
    else v

abbrev unsupported : Result String
unsupported = err (failure "unsupported updateMode value")

-- The type switch; `lower` is as in Utils/Names.
unfoldable pub normalize_update_mode : (lower : Char → Char) → Value → Result String
unfolding mode_of
normalize_update_mode lower (boolean true') = ok (if true' then "Recreate" else "Off")
normalize_update_mode lower (text v) = ok (mode_of (to_lower lower (trim_space v)) v)
normalize_update_mode lower null = unsupported
normalize_update_mode lower (number _) = unsupported
normalize_update_mode lower (array _) = unsupported
normalize_update_mode lower (object _) = unsupported

-- A deep copy is the value.
unfoldable pub copy_profile_spec : ProfileSpec → ProfileSpec
copy_profile_spec spec = spec

unfoldable pub validate_profile_spec : ProfileSpec → Result ProfileSpec
validate_profile_spec spec = elim spec.target_ref [
  | none ↦ ok (record spec { target_ref = none })
  | some _ ↦ err (failure "invalid profile: .targetRef must not be set")
]

abbrev pub sample_name_data : NameTemplateData
sample_name_data = record {
  workload_name = "workload";
  namespace = "namespace";
  kind = "Deployment";
  profile = "default";
}

module _ (engine : TemplateEngine) (default_template : String) where
  abbrev named : (name : String) → Profile → (copied : ProfileSpec) → Result String → Result Profile
  named name spec copied (err e) = err (wrapped ("profile " ++ name ++ " name template invalid") e)
  named name spec copied (ok _) = ok (record { name_template = spec.name_template; spec = copied })

  abbrev checked : (name : String) → Profile → Result ProfileSpec → Result Profile
  checked name spec (err e) = err (wrapped ("profile " ++ name ++ " invalid") e)
  checked name spec (ok copied) = named name spec copied (
      render_name_template engine (default_if_zero spec.name_template default_template)
        sample_name_data)

  -- The body of the loop over the profiles.
  unfoldable pub validate_profile : (name : String) → Profile → Result Profile
  unfolding copy_profile_spec validate_profile_spec default_if_zero
  validate_profile name spec =
      checked name spec (validate_profile_spec (copy_profile_spec spec.spec))

  abbrev store :
      (name : String) → Result Profile → Result (Entries Profile) → Result (Entries Profile)
  store name (err e) rest = err e
  store name (ok p) (err e) = err e
  store name (ok p) (ok parsed) = ok ((name, p) ∷ parsed)

  -- The loop, in the order of the list; which of several errors is returned depends on that order.
  unfoldable pub validate_profiles : Entries Profile → Result (Entries Profile)
  unfolding validate_profile
  validate_profiles [] = ok []
  validate_profiles ((name, spec) ∷ rest) =
      let parsed = validate_profiles rest in store name (validate_profile name spec) parsed

  abbrev pub with_default : Config → Entries Profile → Option Profile → Result Config
  with_default c parsed none =
      err (failure ("defaultProfile " ++ c.default_profile ++ " not found"))
  with_default c parsed (some _) = ok (record c { profiles = some parsed })

  abbrev pub with_profiles : Config → Result (Entries Profile) → Result Config
  with_profiles c (err e) = err e
  with_profiles c (ok parsed) = with_default c parsed (index? (some parsed) c.default_profile)

  abbrev with_template : Config → Entries Profile → Result String → Result Config
  with_template c l (err e) = err (wrapped "default name template invalid" e)
  with_template c l (ok _) = with_profiles c (validate_profiles l)

  abbrev with_entries : Config → Map Profile → Result Config
  with_entries c none = err (failure "profiles must be set")
  with_entries c (some []) = err (failure "profiles must be set")
  with_entries c (some (e ∷ l)) =
      if c.default_profile == ""
      then err (failure "defaultProfile must be set")
      else with_template c (e ∷ l) (render_name_template engine default_template sample_name_data)

  -- Config.Validate: the configuration that it leaves, or its error.
  unfoldable pub validate : Config → Result Config
  unfolding validate_profiles
  validate c = with_entries c c.profiles
