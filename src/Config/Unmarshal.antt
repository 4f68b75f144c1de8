-- ===== src/Config/Unmarshal.antt =====
-- The two UnmarshalJSON methods of internal/config/loader.go, on JSON as Kube/Json has it. What they
-- call of encoding/json beyond maps is a parameter.
use Prim.Native.Char.{Char}
use autovpa.Common.{String, Option, none, some, ◌==◌, if◌then◌else◌}
use autovpa.Kube.{VpaSpec, Result, ok, err, failure}
use autovpa.Kube.Json.{
  Value, null, boolean, number, text, array, object, Elements, nil, cons, Members, end, member,
}
use autovpa.Config.{ProfileSpec, Profile, normalize_update_mode}

-- A number is decoded to a float64 and printed again, or is out of its range. `decode_spec` is
-- json.Unmarshal into a VerticalPodAutoscalerSpec, and `zero_spec` is the empty one. `lower` is as
-- in Utils/Names.
pub record JsonLibrary : Type 0 where
  pub float_text : String → Result String
  pub decode_spec : Value → Result VpaSpec
  pub zero_spec : VpaSpec
  pub lower : Char → Char

-- `v, ok := raw[key]`
unfoldable pub find_member : String → Members → Option Value
find_member key end = none
find_member key (member k v m) = if k == key then some v else find_member key m

-- `raw[key] = v` for a key that is there
unfoldable pub set_member : String → Value → Members → Members
set_member key v end = end
set_member key v (member k w m) = if k == key then member k v m else member k w (set_member key v m)

-- `delete(raw, key)`
unfoldable pub drop_member : String → Members → Members
drop_member key end = end
drop_member key (member k v m) =
    let rest = drop_member key m in if k == key then rest else member k v rest

abbrev pub with_element : Result Value → Result Elements → Result Elements
with_element (err e) rest = err e
with_element (ok v) (err e) = err e
with_element (ok v) (ok l) = ok (cons v l)

abbrev pub with_member : String → Result Value → Result Members → Result Members
with_member k (err e) rest = err e
with_member k (ok v) (err e) = err e
with_member k (ok v) (ok m) = ok (member k v m)

abbrev pub number_of : Result String → Result Value
number_of (ok s) = ok (number s)
number_of (err e) = err e

abbrev pub array_of : Result Elements → Result Value
array_of (ok l) = ok (array l)
array_of (err e) = err e

abbrev pub object_of : Result Members → Result Value
object_of (ok m) = ok (object m)
object_of (err e) = err e

module _ (lib : JsonLibrary) where
  -- Decoding to `any` and encoding again.
  unfoldable mutual
    pub as_any : Value → Result Value
    as_any null = ok null
    as_any (boolean b) = ok (boolean b)
    as_any (number n) = number_of (lib.float_text n)
    as_any (text s) = ok (text s)
    as_any (array l) = array_of (elements_any l)
    as_any (object m) = object_of (members_any m)

    pub elements_any : Elements → Result Elements
    elements_any nil = ok nil
    elements_any (cons v l) = with_element (as_any v) (elements_any l)

    pub members_any : Members → Result Members
    members_any end = ok end
    members_any (member k v m) = with_member k (as_any v) (members_any m)

  abbrev pub replaced : Members → Members → Result String → Result Members
  replaced raw up (err e) = err e
  replaced raw up (ok normalized) =
      ok (set_member "updatePolicy" (object (set_member "updateMode" (text normalized) up)) raw)

  abbrev pub with_mode : Members → Members → Option Value → Result Members
  with_mode raw up none = ok raw
  with_mode raw up (some mode) = replaced raw up (normalize_update_mode lib.lower mode)

  -- The type assertion on `raw["updatePolicy"]`
  abbrev pub with_policy : Members → Option Value → Result Members
  with_policy raw (some (object up)) = with_mode raw up (find_member "updateMode" up)
  with_policy raw none = ok raw
  with_policy raw (some null) = ok raw
  with_policy raw (some (boolean _)) = ok raw
  with_policy raw (some (number _)) = ok raw
  with_policy raw (some (text _)) = ok raw
  with_policy raw (some (array _)) = ok raw

  unfoldable pub normalized_raw : Members → Result Members
  unfolding find_member set_member
  normalized_raw raw = with_policy raw (find_member "updatePolicy" raw)

  abbrev pub decoded_spec : Result Members → Result ProfileSpec
  decoded_spec (err e) = err e
  decoded_spec (ok m) = lib.decode_spec (object m)

  abbrev pub spec_of_members : Result Members → Result ProfileSpec
  spec_of_members (err e) = err e
  spec_of_members (ok raw) = decoded_spec (normalized_raw raw)

  abbrev pub not_an_object : {A : Type 0} → Result A
  not_an_object = err (failure "json: cannot unmarshal into a map")

  -- ProfileSpec.UnmarshalJSON. The map stays nil for `null`, and is encoded as `null` again.
  unfoldable pub unmarshal_spec : Value → Result ProfileSpec
  unfolding members_any normalized_raw
  unmarshal_spec (object m) = spec_of_members (members_any m)
  unmarshal_spec null = lib.decode_spec null
  unmarshal_spec (boolean _) = not_an_object
  unmarshal_spec (number _) = not_an_object
  unmarshal_spec (text _) = not_an_object
  unmarshal_spec (array _) = not_an_object

  -- json.Unmarshal into a string; `null` leaves it as it is.
  abbrev pub string_of : (before : String) → Option Value → Result String
  string_of before none = ok before
  string_of before (some (text s)) = ok s
  string_of before (some null) = ok before
  string_of before (some (boolean _)) = err (failure "json: cannot unmarshal into a string")
  string_of before (some (number _)) = err (failure "json: cannot unmarshal into a string")
  string_of before (some (array _)) = err (failure "json: cannot unmarshal into a string")
  string_of before (some (object _)) = err (failure "json: cannot unmarshal into a string")

  abbrev pub profile_with : String → Result ProfileSpec → Result Profile
  profile_with name (err e) = err e
  profile_with name (ok spec) = ok (record { name_template = name; spec = spec })

  abbrev pub spec_of_rest : Members → Result ProfileSpec
  spec_of_rest end = ok lib.zero_spec
  spec_of_rest (member k v m) = unmarshal_spec (object (member k v m))

  abbrev pub named_profile : Members → Result String → Result Profile
  named_profile raw (err e) = err e
  named_profile raw (ok name) = profile_with name (spec_of_rest (drop_member "nameTemplate" raw))

  abbrev pub inline_profile : (before : String) → Members → Option Value → Result Profile
  inline_profile before raw (some _) =
      err (failure "profile spec must be provided inline; the spec field is not supported")
  inline_profile before raw none =
      named_profile raw (string_of before (find_member "nameTemplate" raw))

  -- Profile.UnmarshalJSON; `p` is the profile before.
  unfoldable pub unmarshal_profile : (p : Profile) → Value → Result Profile
  unfolding find_member drop_member unmarshal_spec
  unmarshal_profile p (object m) = inline_profile p.name_template m (find_member "spec" m)
  unmarshal_profile p null = inline_profile p.name_template end none
  unmarshal_profile p (boolean _) = not_an_object
  unmarshal_profile p (number _) = not_an_object
  unmarshal_profile p (text _) = not_an_object
  unmarshal_profile p (array _) = not_an_object
