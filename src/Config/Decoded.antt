-- ===== src/Config/Decoded.antt =====
-- What the UnmarshalJSON methods of internal/config/loader.go hand to the decoder of a VPA spec.
use autovpa.Common.{
  String, Option, none, some, ◌≡◌, ◌≢◌, refl, sym, ap, ◌∙◌, inl, inr, eq_iff, arith, Option-cases,
}
use mathlib.Core.Path.{subst}
use autovpa.Kube.{ok≢err, Result, ok, err, Result-cases}
use autovpa.Kube.Json.{Value, null, boolean, number, text, array, object, Members, end, member}
use autovpa.Config.{ProfileSpec, normalize_update_mode}
use autovpa.Config.Modes.{normalize_update_mode_again}
use autovpa.Config.Unmarshal.{
  JsonLibrary, find_member, set_member, members_any, replaced, with_mode, with_policy,
  normalized_raw, decoded_spec, spec_of_members, unmarshal_spec,
}

find_member-set_member :
    (j k : String) (v : Value) (m : Members)
    → j ≢ k
    → find_member j (set_member k v m) ≡ find_member j m
unfolding find_member set_member
find_member-set_member j k v end other = refl
find_member-set_member j k v (member i w m) other =
    ground (arith, find_member-set_member j k v m, eq_iff i j, eq_iff i k, other)

find_member-set_member_self :
    (k : String) (v w : Value) (m : Members)
    → find_member k m ≡ some w
    → find_member k (set_member k v m) ≡ some v
unfolding find_member set_member
find_member-set_member_self k v w end h = cc h
find_member-set_member_self k v w (member i x m) h =
    ground (arith, find_member-set_member_self k v w m, eq_iff i k, h)

module _ (lib : JsonLibrary) where
  -- The update mode of the policy before and after: a missing one stays missing, and any other is
  -- what normalizeUpdateMode makes of it, which is a mode that it keeps.
  abbrev pub ModeFrom : (before after : Option Value) → Type 0
  ModeFrom none after = after ≡ none
  ModeFrom (some mode) after =
      (t : String) × (after ≡ some (text t))
      × (normalize_update_mode lib.lower mode ≡ ok t)
      × (normalize_update_mode lib.lower (text t) ≡ ok t)

  -- The same for the policy: all its other members stay, and what is no object stays as it is.
  abbrev pub PolicyFrom : (before after : Option Value) → Type 0
  PolicyFrom (some (object up)) after =
      (new : Members) × (after ≡ some (object new))
      × ((j : String) → j ≢ "updateMode" → find_member j new ≡ find_member j up)
      × ModeFrom (find_member "updateMode" up) (find_member "updateMode" new)
  PolicyFrom before after = after ≡ before

  -- `w` is `m` but for the update mode, which has been normalized.
  pub record IsNormalized (m w : Members) : Type 0 where
    pub others : (j : String) → j ≢ "updatePolicy" → find_member j w ≡ find_member j m
    pub policy : PolicyFrom (find_member "updatePolicy" m) (find_member "updatePolicy" w)

  replaced-IsNormalized :
      (raw up w : Members) (mode : Value) (r : Result String)
      → find_member "updatePolicy" raw ≡ some (object up)
      → find_member "updateMode" up ≡ some mode
      → normalize_update_mode lib.lower mode ≡ r
      → replaced lib raw up r ≡ ok w
      → IsNormalized raw w
  replaced-IsNormalized raw up w mode (err e) policy found normal h = cc h
  replaced-IsNormalized raw up w mode (ok t) policy found normal h =
      let new_up = set_member "updateMode" (text t) up in
      let w' = set_member "updatePolicy" (object new_up) raw in
      let mode_from : ModeFrom (find_member "updateMode" up) (find_member "updateMode" new_up) =
        rw found (
          t,
          find_member-set_member_self "updateMode" (text t) mode up found,
          normal,
          normalize_update_mode_again lib.lower mode t normal,
        ) in
      let same : w' ≡ w = cc h in
      subst (IsNormalized raw) same (record {
        others = λ j other. find_member-set_member j "updatePolicy" (object new_up) raw other;
        policy = rw policy (
          new_up,
          find_member-set_member_self "updatePolicy" (object new_up) (object up) raw policy,
          (λ j other. find_member-set_member j "updateMode" (text t) up other),
          mode_from,
        );
      })

  unchanged-IsNormalized :
      (raw w : Members)
      → PolicyFrom (find_member "updatePolicy" raw) (find_member "updatePolicy" raw)
      → ok raw ≡ ok w
      → IsNormalized raw w
  unchanged-IsNormalized raw w policy h =
      let same : raw ≡ w = cc h in
      subst (IsNormalized raw) same (record { others = λ j other. refl; policy = policy })

  with_policy-IsNormalized :
      (raw w : Members) (policy : Option Value)
      → find_member "updatePolicy" raw ≡ policy
      → with_policy lib raw policy ≡ ok w
      → IsNormalized raw w
  with_policy-IsNormalized raw w none e h = unchanged-IsNormalized raw w (rw e refl) h
  with_policy-IsNormalized raw w (some (object up)) e h =
      elim (Option-cases (find_member "updateMode" up)) [
        | inr (mode, found) ↦
            replaced-IsNormalized raw up w mode (normalize_update_mode lib.lower mode) e found refl
              (ap (with_mode lib raw up) (sym found) ∙ h)
        | inl missing ↦
            unchanged-IsNormalized raw w (rw e (up, refl, (λ j other. refl), rw missing refl))
              (ap (with_mode lib raw up) (sym missing) ∙ h)
      ]
  with_policy-IsNormalized raw w (some null) e h = unchanged-IsNormalized raw w (rw e refl) h
  with_policy-IsNormalized raw w (some (boolean _)) e h = unchanged-IsNormalized raw w (rw e refl) h
  with_policy-IsNormalized raw w (some (number _)) e h = unchanged-IsNormalized raw w (rw e refl) h
  with_policy-IsNormalized raw w (some (text _)) e h = unchanged-IsNormalized raw w (rw e refl) h
  with_policy-IsNormalized raw w (some (array _)) e h = unchanged-IsNormalized raw w (rw e refl) h

  -- What a spec was decoded from: the members `m`, decoded to `any`, then normalized.
  pub record IsDecoded (m : Members) (spec : ProfileSpec) : Type 0 where
    pub any : Members
    pub normal : Members
    pub reads : members_any lib m ≡ ok any
    pub normalizes : IsNormalized any normal
    pub decodes : lib.decode_spec (object normal) ≡ ok spec

  pub unmarshal_spec-IsDecoded :
      (m : Members) (spec : ProfileSpec)
      → unmarshal_spec lib (object m) ≡ ok spec
      → IsDecoded m spec
  unfolding unmarshal_spec normalized_raw
  unmarshal_spec-IsDecoded m spec h = elim (Result-cases (members_any lib m)) [
    | inr (e, bad) ↦ absurd (ok≢err (sym h ∙ ap (spec_of_members lib) bad))
    | inl (a, good) ↦ elim (Result-cases (normalized_raw lib a)) [
      | inr (e, bad) ↦
          absurd (ok≢err (sym h ∙ (ap (spec_of_members lib) good ∙ ap (decoded_spec lib) bad)))
      | inl (w, normal) ↦ record {
        any = a;
        normal = w;
        reads = good;
        normalizes = with_policy-IsNormalized a w (find_member "updatePolicy" a) refl normal;
        decodes = sym (ap (spec_of_members lib) good ∙ ap (decoded_spec lib) normal) ∙ h;
      }
    ]
  ]
