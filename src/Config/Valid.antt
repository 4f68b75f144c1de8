-- ===== src/Config/Valid.antt =====
-- Which configurations Validate of internal/config/validate.go accepts.
use mathlib.Core.Path.{subst}
use autovpa.Common.{
  String, none, some, List, [], ◌∷◌, ◌≡◌, ◌≢◌, ◌↔◌, refl, ap, sym, ◌∙◌, inl, inr, ◌==◌, Bool-cases,
  Option-cases, arith, Map, Entries, All, index?, eq_iff,
}
use autovpa.Kube.{Result-cases, ok≢err, ok}
use autovpa.Utils.{default_if_zero}
use autovpa.Utils.Names.{TemplateEngine, render_name_template}
use autovpa.Config.{
  Profile, Config, copy_profile_spec, validate_profile_spec, sample_name_data, validate_profile,
  validate_profiles, with_profiles, validate,
}

module _ (engine : TemplateEngine) (default_template : String) where
  -- The template renders the sample data to a valid name.
  abbrev pub Renders : String → Type 0
  Renders template =
      (name : String) × (render_name_template engine template sample_name_data ≡ ok name)

  -- A profile without a targetRef, whose own or default name template renders.
  abbrev pub IsValidProfile : String × Profile → Type 0
  IsValidProfile (_, profile) =
      (profile.spec.target_ref ≡ none)
      × Renders (default_if_zero profile.name_template default_template)

  pub record IsValid (c : Config) : Type 0 where
    pub has_default : c.default_profile ≢ ""
    pub template : Renders default_template
    pub profiles : (l : Entries Profile) × ((c.profiles ≡ some l) × (l ≢ []) × All IsValidProfile l)
    pub default_exists : (p : Profile) × (index? c.profiles c.default_profile ≡ some p)

  cons≢nil : {A : Type 0} {a : A} {l : List A} → (a ∷ l) ≢ []
  cons≢nil h = cc h

  validate_profile_iff :
      (name : String) (profile p : Profile)
      → (validate_profile engine default_template name profile ≡ ok p)
        ↔ ((p ≡ profile) × IsValidProfile (name, profile))
  unfolding validate_profile copy_profile_spec validate_profile_spec
  validate_profile_iff name profile p =
      let rendered = Result-cases (
        render_name_template engine (default_if_zero profile.name_template default_template)
          sample_name_data) in
      elim (Option-cases profile.spec.target_ref) [
        | inl unset ↦ elim rendered [
          | inl (n, good) ↦ rw (unset, good) (λ h. (cc h, (refl, (n, refl))), λ h. ap ok (sym h.0))
          | inr (e, bad) ↦ rw (unset, bad) (λ h. cc h, λ h. cc h.1.1.1)
        ]
        | inr (target, set) ↦ rw set (λ h. cc h, λ h. cc h.1.0)
      ]

  validate_profiles_iff :
      (l parsed : Entries Profile)
      → (validate_profiles engine default_template l ≡ ok parsed)
        ↔ ((parsed ≡ l) × All IsValidProfile l)
  unfolding validate_profiles
  validate_profiles_iff [] parsed = (λ h. (cc h, tt), λ h. ap ok (sym h.0))
  validate_profiles_iff ((name, profile) ∷ l) parsed =
      let head = validate_profile_iff name profile in
      let tail = validate_profiles_iff l in
      elim (Result-cases (validate_profile engine default_template name profile)) [
        | inr (e, bad) ↦
            rw bad (λ h. cc h, λ h. absurd (ok≢err (sym ((head profile).1 (refl, h.1.0)) ∙ bad)))
        | inl (p, good) ↦ elim (Result-cases (validate_profiles engine default_template l)) [
          | inr (e, bad) ↦
              rw (good, bad)
                (λ h. cc h, λ h. absurd (ok≢err (sym ((tail l).1 (refl, h.1.1)) ∙ bad)))
          | inl (ps, rest) ↦
              let (same, valid) = (head p).0 good in
              let (same_rest, valid_rest) = (tail ps).0 rest in
              rw (good, rest)
                (
                  λ h. (cc (h, same, same_rest), (valid, valid_rest)),
                  λ h. cc (h.0, same, same_rest),
                )
        ]
      ]

  with_profiles_iff :
      (d : String) (l : Entries Profile) (c : Config)
      → d ≢ ""
      → Renders default_template
      → l ≢ []
      → (with_profiles engine default_template
            (record { default_profile = d; profiles = some l })
            (validate_profiles engine default_template l)
          ≡ ok c)
        ↔ ((c ≡ record { default_profile = d; profiles = some l })
            × IsValid (record { default_profile = d; profiles = some l }))
  with_profiles_iff d l c has_default template filled =
      let all = validate_profiles_iff l in
      elim (Result-cases (validate_profiles engine default_template l)) [
        | inr (x, bad) ↦ rw bad (
          λ h. cc h,
          λ h.
              let (k, (same, _, valid)) = h.1.profiles in
              let here : k ≡ l = cc same in
              absurd (ok≢err (sym ((all l).1 (refl, subst (All IsValidProfile) here valid)) ∙ bad)),
        )
        | inl (parsed, good) ↦
            let (same, valid) = (all parsed).0 good in
            elim (Option-cases (index? (some l) d)) [
              | inl missing ↦
                  rw (good, same, missing)
                    (λ h. cc h, λ h. let (p, found) = h.1.default_exists in cc (found, missing))
              | inr (p, found) ↦
                  rw (good, same, found)
                    (
                      λ h. (
                        cc h,
                        record {
                          has_default = has_default;
                          template = template;
                          profiles = (l, (refl, filled, valid));
                          default_exists = (p, found);
                        },
                      ),
                      λ h. ap ok (sym h.0),
                    )
            ]
      ]

  validate_parts :
      (d : String) (m : Map Profile) (c : Config)
      → (validate engine default_template (record { default_profile = d; profiles = m }) ≡ ok c) ↔ (
          (c ≡ record { default_profile = d; profiles = m })
          × IsValid (record { default_profile = d; profiles = m }))
  unfolding validate
  validate_parts d none c = (λ h. cc h, λ h. let (l, (same, _, _)) = h.1.profiles in cc same)
  validate_parts d (some []) c =
      (λ h. cc h, λ h. let (l, (same, filled, _)) = h.1.profiles in absurd (filled (cc same)))
  validate_parts d (some (e ∷ l)) c = elim (Bool-cases (d == "")) [
    | inl empty ↦ rw empty (λ h. cc h, λ h. absurd (h.1.has_default ((eq_iff d "").0 empty)))
    | inr given ↦
        let has_default : d ≢ "" = ground (arith, given, eq_iff d "") in
        elim (Result-cases (render_name_template engine default_template sample_name_data)) [
          | inr (x, bad) ↦
              rw (given, bad)
                (λ h. cc h, λ h. let (n, good) = h.1.template in absurd (ok≢err (sym good ∙ bad)))
          | inl (n, good) ↦
              rw (given, good) (with_profiles_iff d (e ∷ l) c has_default (n, good) cons≢nil)
        ]
  ]

  -- Validate accepts exactly the configurations that name a default profile which exists, whose
  -- default name template renders the sample data to a valid name, and whose profiles set no
  -- targetRef and have name templates that render too. It leaves such a configuration as it is.
  pub validate_iff :
      (c result : Config)
      → (validate engine default_template c ≡ ok result) ↔ ((result ≡ c) × IsValid c)
  validate_iff c result = validate_parts c.default_profile c.profiles result
