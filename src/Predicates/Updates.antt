-- ===== src/Predicates/Updates.antt =====
-- Which updates the predicates of internal/predicates let through, exactly.
use autovpa.Common.{
  String, Bool, true, false, Option, none, some, index, ◌==◌, eq_iff, arith, ◌≡◌, ◌≢◌, ◌↔◌, ◌⊎◌,
  Bool-cases, inl, inr, refl, not, ◌&&◌, ap, if◌then◌else◌,
}
use autovpa.Kube.{Object, unstructured, is_zero_time}
use autovpa.Kube.Json.{Value, value_equal, value_equal_iff}
use autovpa.Predicates.{
  update, or_rest, Presence, presence, annotation_value, has_true_label, deletion_just_started,
  controller_owner_ref, profile_update, managed_update, changed, same_ref,
  profile_annotation_lifecycle, managed_vpa_lifecycle,
}
use autovpa.Predicates.Laws.{same_ref_iff}

-- A value that is not present is the empty text.
IsPresence : Presence → Type 0
IsPresence p = p.present ≡ false → p.value ≡ ""

presence-IsPresence : (o : Option String) → IsPresence (presence o)
unfolding IsPresence
presence-IsPresence o = ground arith

annotation_value-IsPresence :
    (obj : Option Object) (key : String) → IsPresence (annotation_value obj key)
unfolding annotation_value IsPresence
annotation_value-IsPresence none key h = ground arith
annotation_value-IsPresence (some obj) key h = ground arith

-- What `profile_update` answers to a pair of presences with the text left out where absent.
let_through :
    (before after : Presence) (started : Bool)
    → IsPresence before
    → IsPresence after
    → profile_update before after (some started) ≡ some true
    → (before ≢ after) ⊎ ((after.present ≡ true) × (started ≡ true))
unfolding profile_update IsPresence
let_through before after started hb ha h = elim (Bool-cases (before.value == after.value)) [
  | inl same ↦ elim (Bool-cases before.present) [
    | inl p ↦ elim (Bool-cases after.present) [
      | inl q ↦ inr (ground arith)
      | inr q ↦ inl (λ e. ground arith)
    ]
    | inr p ↦ elim (Bool-cases after.present) [
      | inl q ↦ inl (λ e. ground arith)
      | inr q ↦ absurd (ground arith)
    ]
  ]
  | inr other ↦ inl (λ e. ground (arith, eq_iff before.value after.value))
]

held_back :
    (before after : Presence) (started : Bool)
    → IsPresence before
    → IsPresence after
    → profile_update before after (some started) ≢ some true
    → (before ≡ after) × ((after.present ≡ true) → started ≡ false)
unfolding profile_update IsPresence
held_back before after started hb ha h =
    (ground (arith, eq_iff before.value after.value), λ p. ground arith)

some-true-cases : (o : Option Bool) → (o ≡ some true) ⊎ (o ≢ some true)
some-true-cases none = inr (λ e. cc)
some-true-cases (some true) = inl refl
some-true-cases (some false) = inr (λ e. cc)

started_some :
    {before after : Presence} {p : Type 0} {started : Bool}
    → (before ≢ after) ⊎ (p × (started ≡ true))
    → (before ≢ after) ⊎ (p × (some started ≡ some true))
started_some (inl other) = inl other
started_some (inr (p, q)) = inr (p, ap some q)

profile_update_cases :
    (before after : Presence) (started : Bool)
    → IsPresence before
    → IsPresence after
    → (profile_update before after (some started) ≡ some true)
      ↔ ((before ≢ after) ⊎ ((after.present ≡ true) × (some started ≡ some true)))
profile_update_cases before after started hb ha = (
  λ h. started_some (let_through before after started hb ha h),
  λ d. elim (some-true-cases _) [
    | inl fires ↦ fires
    | inr quiet ↦
        let (same, unstarted) = held_back before after started hb ha quiet in
        elim d [ inl other ↦ absurd (other same) | inr (p, q) ↦ cc (unstarted p) ]
  ],
)

module _ (key : String) (old new : Object) where
  -- An update of a workload is let through exactly when its profile annotation, as the controllers
  -- read it, differs, or the workload is opted in and its deletion has just started.
  pub profile_update_iff :
      (profile_annotation_lifecycle key (update (some old) (some new)) ≡ some true) ↔ (
        (annotation_value (some old) key ≢ annotation_value (some new) key)
        ⊎ (((annotation_value (some new) key).present ≡ true)
            × (deletion_just_started (some old) (some new) ≡ some true)))
  profile_update_iff =
      let cases =
        profile_update_cases (annotation_value (some old) key) (annotation_value (some new) key)
          (is_zero_time old.deletion_timestamp && not (is_zero_time new.deletion_timestamp))
          (annotation_value-IsPresence (some old) key)
          (annotation_value-IsPresence (some new) key) in
      unfold profile_annotation_lifecycle in cases

-- The tests of the VPA predicate as plain Booleans.
quiet_cases :
    (new_has deleted moved same_label same_profile redefined : Bool)
    → (managed_update true new_has (
          or_rest (some deleted) (
            or_rest (some moved) (
              or_rest
                (some (if not same_label then true else (if not same_profile then true else false)))
                (some redefined))))
        ≡ some false)
      ↔ ((new_has ≡ true)
          × (deleted ≡ false)
          × (moved ≡ false)
          × (same_label ≡ true)
          × (same_profile ≡ true)
          × (redefined ≡ false))
unfolding managed_update
quiet_cases a b c d e f = (λ h. ground arith, λ h. ground arith)

not-false : {b : Bool} → not b ≡ false → b ≡ true
not-false {b} h = ground arith

not-true : {b : Bool} → b ≡ true → not b ≡ false
not-true {b} h = ground arith

some_inj : {a b : Bool} → some a ≡ some b → a ≡ b
some_inj h = cc

-- Nothing that the operator owns differs between two versions of a VPA, and the new one is managed and
-- not newly deleted.
abbrev pub IsQuiet :
    (managed_label profile_key : String) (old new : Object) (old_spec new_spec : Value) → Type 0
IsQuiet managed_label profile_key old new old_spec new_spec =
    (has_true_label (some new) managed_label ≡ true)
    × (deletion_just_started (some old) (some new) ≡ some false)
    × (controller_owner_ref (some old) ≡ controller_owner_ref (some new))
    × (index old.labels managed_label ≡ index new.labels managed_label)
    × (index old.labels profile_key ≡ index new.labels profile_key)
    × (old_spec ≡ new_spec)

module _ (managed_label profile_key : String) (old new : Object) (old_spec new_spec : Value)
    (old_body : old.body ≡ unstructured old_spec)
    (new_body : new.body ≡ unstructured new_spec) where
  lifecycle_as_tests :
      managed_vpa_lifecycle managed_label profile_key (update (some old) (some new))
      ≡ managed_update
          (has_true_label (some old) managed_label)
          (has_true_label (some new) managed_label)
          (or_rest (deletion_just_started (some old) (some new)) (
            or_rest
              (some (
                not (same_ref (controller_owner_ref (some old)) (controller_owner_ref (some new)))))
              (or_rest
                (some (
                  if not (index old.labels managed_label == index new.labels managed_label)
                  then true
                  else (if not (index old.labels profile_key == index new.labels profile_key)
                      then true
                      else false)))
                (some (changed (some old_spec) (some new_spec))))))
  lifecycle_as_tests = unfold managed_vpa_lifecycle in cc (old_body, new_body)

  started :
      deletion_just_started (some old) (some new)
      ≡ some (is_zero_time old.deletion_timestamp && not (is_zero_time new.deletion_timestamp))
  unfolding deletion_just_started
  started = refl

  -- An update of a VPA that was managed, from an unstructured object to another, is ignored by the
  -- workload controllers exactly when the VPA stays managed, its deletion does not start, and the
  -- controller reference, the operator's two labels and the spec are unchanged. A label that is
  -- missing is read as the empty text.
  pub managed_update-IsQuiet_iff :
      has_true_label (some old) managed_label ≡ true
      → (managed_vpa_lifecycle managed_label profile_key (update (some old) (some new))
          ≡ some false)
        ↔ IsQuiet managed_label profile_key old new old_spec new_spec
  managed_update-IsQuiet_iff h =
      let cases =
        quiet_cases (has_true_label (some new) managed_label)
          (is_zero_time old.deletion_timestamp && not (is_zero_time new.deletion_timestamp))
          (not (same_ref (controller_owner_ref (some old)) (controller_owner_ref (some new))))
          (index old.labels managed_label == index new.labels managed_label)
          (index old.labels profile_key == index new.labels profile_key)
          (not (value_equal old_spec new_spec)) in
      let tests = lifecycle_as_tests in
      let refs = same_ref_iff (controller_owner_ref (some old)) (controller_owner_ref (some new)) in
      let managed = eq_iff (index old.labels managed_label) (index new.labels managed_label) in
      let profile = eq_iff (index old.labels profile_key) (index new.labels profile_key) in
      let specs = value_equal_iff old_spec new_spec in
      (
        λ e.
            let q = cases.0 (cc (tests, started)) in
            (
              q.0,
              cc started,
              refs.0 (not-false q.2),
              managed.0 q.3,
              profile.0 q.4,
              specs.0 (not-false q.5),
            ),
        λ q.
            let quiet = cases.1 (
              q.0,
              some_inj (cc started),
              not-true (refs.1 q.2),
              managed.1 q.3,
              profile.1 q.4,
              not-true (specs.1 q.5),
            ) in
            cc (tests, started),
      )
