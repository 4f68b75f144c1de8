-- ===== src/Config/Tests.antt =====
-- The theorems about configurations at a small one.
use autovpa.Common.{none, some, [], ◌∷◌, ◌≡◌, ◌↔◌, refl, true, String, ◌==◌, if◌then◌else◌}
use autovpa.Kube.{ok}
use autovpa.Kube.Json.{text, boolean, null, object, Members, member, end}
use autovpa.Utils.Names.{TemplateEngine, to_lower}
use autovpa.Utils.Strings.{trim_space}
use autovpa.Config.{Config, Profile, normalize_update_mode, validate}
use autovpa.Config.Unmarshal.{JsonLibrary, find_member, unmarshal_profile}
use autovpa.Config.Inline.{NameFrom, SpecFrom, unmarshal_profile-SpecFrom}
use autovpa.Config.Valid.{IsValid, validate_iff}

-- An engine that renders every template to its text.
abbrev plain_engine : TemplateEngine
plain_engine = record {
  lower = λ c. c;
  parse = λ funcs tmpl. ok (λ data'. ok tmpl);
  is_dns1123_subdomain = λ name. [];
}

abbrev one_profile : Config
one_profile = record {
  default_profile = "gold";
  profiles = some (
      ("gold", record { name_template = ""; spec = record { target_ref = none; fields = null } })
      ∷ []);
}

validate_iff_example :
    (validate plain_engine "vpa" one_profile ≡ ok one_profile)
    ↔ ((one_profile ≡ one_profile) × IsValid plain_engine "vpa" one_profile)
validate_iff_example = validate_iff plain_engine "vpa" one_profile one_profile

modes_run :
    (normalize_update_mode (λ c. c) (text " On ") ≡ ok "Recreate")
    × (normalize_update_mode (λ c. c) (boolean true) ≡ ok "Recreate")
unfolding normalize_update_mode to_lower trim_space
modes_run = (refl, refl)

-- A library that decodes a spec to its members.
abbrev plain_json : JsonLibrary
plain_json = record {
  float_text = λ n. ok n;
  decode_spec = λ v. ok (record { target_ref = none; fields = v });
  zero_spec = record { target_ref = none; fields = null };
  lower = λ c. c;
}

abbrev policy : (mode : String) → Members
policy mode = member "updatePolicy" (object (member "updateMode" (text mode) end)) end

abbrev profile_members : Members
profile_members = member "nameTemplate" (text "x") (policy "on")

abbrev no_profile : Profile
no_profile = record { name_template = ""; spec = plain_json.zero_spec }

abbrev recreate_profile : Profile
recreate_profile = record {
  name_template = "x";
  spec = record { target_ref = none; fields = object (policy "Recreate") };
}

unmarshal_profile_runs :
    unmarshal_profile plain_json no_profile (object profile_members) ≡ ok recreate_profile
unfolding unmarshal_profile normalize_update_mode to_lower trim_space
unmarshal_profile_runs = refl

unmarshal_profile-SpecFrom_example :
    (find_member "spec" profile_members ≡ none)
    × NameFrom plain_json "" (find_member "nameTemplate" profile_members) "x"
    × ((rest : Members) × ((j : String)
          → find_member j rest
            ≡ (if "nameTemplate" == j then none else find_member j profile_members))
        × SpecFrom plain_json rest recreate_profile.spec)
unmarshal_profile-SpecFrom_example =
    unmarshal_profile-SpecFrom plain_json no_profile recreate_profile profile_members
      unmarshal_profile_runs
