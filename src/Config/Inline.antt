-- ===== src/Config/Inline.antt =====
-- What a profile takes from its JSON, by UnmarshalJSON of internal/config/loader.go.
use autovpa.Common.{
  String, Option, none, some, ◌≡◌, sym, ap, ◌∙◌, inl, inr, ◌==◌, eq_iff, arith, Option-cases,
  if◌then◌else◌,
}
use autovpa.Kube.{ok≢err, Result, ok, err, Result-cases}
use autovpa.Kube.Json.{Value, null, boolean, number, text, array, object, Members, end, member}
use autovpa.Config.{ProfileSpec, Profile}
use autovpa.Config.Unmarshal.{
  JsonLibrary, find_member, drop_member, string_of, profile_with, spec_of_rest, named_profile,
  inline_profile, unmarshal_profile,
}
use autovpa.Config.Decoded.{IsDecoded, unmarshal_spec-IsDecoded}

find_member-drop_member :
    (j k : String) (m : Members)
    → find_member j (drop_member k m) ≡ (if k == j then none else find_member j m)
unfolding find_member drop_member
find_member-drop_member j k end = ground arith
find_member-drop_member j k (member i v m) =
    ground (arith, find_member-drop_member j k m, eq_iff i j, eq_iff i k, eq_iff k j)

module _ (lib : JsonLibrary) where
  -- The name template that a profile takes from its members: a text, or the one it had before.
  abbrev pub NameFrom : (before : String) → Option Value → (name : String) → Type 0
  NameFrom before none name = name ≡ before
  NameFrom before (some (text s)) name = name ≡ s
  NameFrom before (some null) name = name ≡ before
  NameFrom before (some _) name = ⊥

  string_of-NameFrom :
      (before name : String) (v : Option Value)
      → string_of lib before v ≡ ok name
      → NameFrom before v name
  string_of-NameFrom before name none h = cc h
  string_of-NameFrom before name (some (text s)) h = cc h
  string_of-NameFrom before name (some null) h = cc h
  string_of-NameFrom before name (some (boolean _)) h = absurd (ok≢err (sym h))
  string_of-NameFrom before name (some (number _)) h = absurd (ok≢err (sym h))
  string_of-NameFrom before name (some (array _)) h = absurd (ok≢err (sym h))
  string_of-NameFrom before name (some (object _)) h = absurd (ok≢err (sym h))

  -- The spec of a profile with these members beside the name template.
  abbrev pub SpecFrom : Members → ProfileSpec → Type 0
  SpecFrom end spec = spec ≡ lib.zero_spec
  SpecFrom (member k v m) spec = IsDecoded lib (member k v m) spec

  spec_of_rest-SpecFrom :
      (rest : Members) (spec : ProfileSpec) → spec_of_rest lib rest ≡ ok spec → SpecFrom rest spec
  spec_of_rest-SpecFrom end spec h = cc h
  spec_of_rest-SpecFrom (member k v m) spec h = unmarshal_spec-IsDecoded lib (member k v m) spec h

  named-inversion :
      (raw : Members) (q : Profile) (name : Result String)
      → named_profile lib raw name ≡ ok q
      → (name ≡ ok q.name_template)
        × (spec_of_rest lib (drop_member "nameTemplate" raw) ≡ ok q.spec)
  named-inversion raw q (err e) h = absurd (ok≢err (sym h))
  named-inversion raw q (ok n) h =
      elim (Result-cases (spec_of_rest lib (drop_member "nameTemplate" raw))) [
        | inl (spec, good) ↦
            let same = sym h ∙ ap (profile_with lib n) good in (cc same, good ∙ cc same)
        | inr (e, bad) ↦ absurd (ok≢err (sym h ∙ ap (profile_with lib n) bad))
      ]

  -- A profile that is read from an object has no member `spec`; its name template is the member
  -- `nameTemplate` if that is a text, and stays as it was if that is missing or null; and its spec
  -- is the empty one if nothing else is given, and is otherwise decoded from all other members, as
  -- they are (numbers as float64), but for the update mode of an updatePolicy that is an object: if
  -- there is one, it is what normalizeUpdateMode makes of it, a mode that it keeps. All other members
  -- of the policy are as they are too.
  pub unmarshal_profile-SpecFrom :
      (p q : Profile) (m : Members)
      → unmarshal_profile lib p (object m) ≡ ok q
      → (find_member "spec" m ≡ none)
        × NameFrom p.name_template (find_member "nameTemplate" m) q.name_template
        × ((rest : Members) × ((j : String)
              → find_member j rest ≡ (if "nameTemplate" == j then none else find_member j m))
            × SpecFrom rest q.spec)
  unfolding unmarshal_profile
  unmarshal_profile-SpecFrom p q m h = elim (Option-cases (find_member "spec" m)) [
    | inr (v, nested) ↦ absurd (ok≢err (sym h ∙ ap (inline_profile lib p.name_template m) nested))
    | inl inline ↦
        let opened = sym (ap (inline_profile lib p.name_template m) inline) ∙ h in
        let (name, spec) =
          named-inversion m q (string_of lib p.name_template (find_member "nameTemplate" m))
            opened in
        (
          inline,
          string_of-NameFrom p.name_template q.name_template (find_member "nameTemplate" m) name,
          (
            drop_member "nameTemplate" m,
            (λ j. find_member-drop_member j "nameTemplate" m),
            spec_of_rest-SpecFrom (drop_member "nameTemplate" m) q.spec spec,
          ),
        )
  ]
