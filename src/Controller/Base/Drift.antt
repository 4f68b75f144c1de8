-- ===== src/Controller/Base/Drift.antt =====
-- When ReconcileWorkload of internal/controller/base_reconciler.go writes a VPA that exists.
use autovpa.Common.{
  String, Bool, true, false, not, ◌||◌, some, [], arith, ◌≡◌, ◌≢◌, ◌↔◌, refl, Map, index?, IsMap,
  entries, maps_equal, any, if◌then◌else◌, eq_iff, lookup-insert, insert, lookup, ap, Entries, ◌≤◌,
  length,
}
use autovpa.Kube.{Object, GroupVersionKind, ok, spec_of}
use autovpa.Kube.Laws.{KeepsContent, CountsOwners}
use autovpa.Effect.{Action, pure, ◌>>=◌, emit, patch}
use autovpa.Effect.Counts.{is_patch}
use autovpa.Utils.Merged.{maps_equal-merge_maps_iff}
use autovpa.Controller.{vpa_needs_update, owner_refs_equal, new_vpa_object}
use autovpa.Controller.Base.Built.{operator_labels-IsMap, index?-operator_labels}
use autovpa.Controller.Base.Desired.{
  DesiredVpaState, BaseReconciler, operator_labels, merge_vpa, update_vpa, apply_vpa,
}
use autovpa.Controller.Base.{update_existing, apply_desired}

none_differ_iff :
    (a b c : Bool) → ((not a || not b || not c) ≡ false) ↔ ((a ≡ true) × (b ≡ true) × (c ≡ true))
none_differ_iff a b c = ground arith

unless-patches :
    {W : Type 0} (needed : Bool) (m : Action W Unit) (w : W)
    → any is_patch (m w).calls ≡ true
    → any is_patch ((if not needed then pure tt else m) w).calls ≡ needed
unless-patches true m w h = h
unless-patches false m w h = refl

module _ {W : Type 0} (b : BaseReconciler W) (obj : Object) (gvk : GroupVersionKind) where
  -- A VPA that needs no write: its spec, the operator's labels and the owner references are those of
  -- the object that would be applied.
  pub record IsSettled (desired : DesiredVpaState) (existing updated : Object) : Type 0 where
    pub same_spec : b.platform.deep_equal (spec_of existing.body) desired.spec ≡ true
    pub managed : index? existing.labels b.meta.managed_label ≡ some "true"
    pub profiled : index? existing.labels b.meta.profile_key ≡ some desired.profile
    pub owned : b.platform.deep_equal_refs existing.owner_references updated.owner_references ≡ true

  update_existing-patches :
      (desired : DesiredVpaState) (updated : Object) (w : W)
      → any is_patch (update_existing b obj gvk desired updated w).calls ≡ true
  unfolding update_existing update_vpa apply_vpa ◌>>=◌ patch emit
  update_existing-patches desired updated w = ground arith

  module _ (distinct : b.meta.managed_label ≢ b.meta.profile_key) where
    -- A map has the operator's labels when it has the two.
    index?-operator_labels_iff :
        (selected : String) (m : Map String)
        → ((k v : String) → index? (operator_labels b selected) k ≡ some v → index? m k ≡ some v)
          ↔ ((index? m b.meta.managed_label ≡ some "true")
              × (index? m b.meta.profile_key ≡ some selected))
    unfolding index? operator_labels
    index?-operator_labels_iff selected m = (
      λ f.
          let (managed, profiled) = index?-operator_labels b obj gvk selected distinct in
          (f _ _ managed, f _ _ profiled),
      λ held k v e.
          let profile = b.meta.profile_key in
          let managed = b.meta.managed_label in
          let inner : Entries String = insert managed "true" [] in
          ground (
            arith,
            e,
            held,
            eq_iff profile k,
            eq_iff managed k,
            lookup-insert profile k selected inner,
            lookup-insert {V = String} managed k "true" [],
            λ (q : profile ≡ k). ap (λ j. lookup j (entries m)) q,
            λ (q : managed ≡ k). ap (λ j. lookup j (entries m)) q,
          ),
    )

    module _ (content : KeepsContent b.platform) (desired : DesiredVpaState)
        (existing updated : Object) (labelled : desired.labels ≡ operator_labels b desired.profile)
        (labels-IsMap : IsMap (entries existing.labels))
        (merged : merge_vpa b existing desired obj ≡ ok updated) where
      labels_kept_iff : (maps_equal existing.labels updated.labels ≡ true) ↔ (
          (index? existing.labels b.meta.managed_label ≡ some "true")
          × (index? existing.labels b.meta.profile_key ≡ some desired.profile))
      unfolding merge_vpa
      labels_kept_iff =
          let (_, _, labels, _) = content.same_content obj _ updated merged in
          let kept =
            maps_equal-merge_maps_iff existing.labels (operator_labels b desired.profile)
              labels-IsMap (operator_labels-IsMap b obj gvk desired.profile distinct) in
          let both = index?-operator_labels_iff desired.profile existing.labels in
          rw (labels, labelled) (λ h. both.0 (kept.0 h), λ h. kept.1 (both.1 h))

      pub needs_no_update_iff :
          (vpa_needs_update b.platform (some existing) (some updated) ≡ false)
          ↔ IsSettled desired existing updated
      unfolding vpa_needs_update owner_refs_equal merge_vpa spec_of
      needs_no_update_iff =
          let (_, _, _, body) = content.same_content obj _ updated merged in
          let spec : spec_of updated.body ≡ desired.spec = rw body refl in
          let labels = labels_kept_iff in
          let tests =
            none_differ_iff (b.platform.deep_equal (spec_of existing.body) (spec_of updated.body))
              (maps_equal existing.labels updated.labels)
              (b.platform.deep_equal_refs existing.owner_references updated.owner_references) in
          (
            λ h.
                let (same, kept, owned) = tests.0 h in
                let (managed, profiled) = labels.0 kept in
                record {
                  same_spec = cc (same, spec);
                  managed = managed;
                  profiled = profiled;
                  owned = owned;
                },
            λ settled. tests.1 (
              cc (settled.same_spec, spec),
              labels.1 (settled.managed, settled.profiled),
              settled.owned,
            ),
          )

      -- For a VPA that exists, nothing is applied exactly when its spec, the operator's two labels and
      -- its owner references are as desired; labels of others play no part. The desired labels are
      -- the operator's, whose keys must differ; no label of the VPA may stand twice, and
      -- SetControllerReference must succeed and keep what is not an owner reference.
      pub apply_desired-IsSettled_iff :
          (w : W)
          → (any is_patch (apply_desired b obj gvk desired (some existing) w).calls ≡ false)
            ↔ IsSettled desired existing updated
      unfolding apply_desired ◌>>=◌
      apply_desired-IsSettled_iff w =
          rw
            (
              merged,
              unless-patches _ (update_existing b obj gvk desired updated) w
                  (update_existing-patches desired updated w),
            )
            needs_no_update_iff

  -- A VPA with more than one owner reference is applied again by every reconciliation that gets to
  -- it, whatever else it holds: the object to apply has one owner reference. SetControllerReference
  -- must set one reference, and lists of different lengths must not be equal.
  pub several_owners_always_applied :
      CountsOwners b.platform
      → (desired : DesiredVpaState) (existing updated : Object) (w : W)
      → merge_vpa b existing desired obj ≡ ok updated
      → 2 ≤ length existing.owner_references
      → any is_patch (apply_desired b obj gvk desired (some existing) w).calls ≡ true
  unfolding apply_desired ◌>>=◌ merge_vpa vpa_needs_update owner_refs_equal new_vpa_object
  several_owners_always_applied owners desired existing updated w merged several =
      let one = owners.one_owner obj _ updated refl merged in
      let same = owners.same_length existing.owner_references updated.owner_references in
      let needed : vpa_needs_update b.platform (some existing) (some updated) ≡ true =
        ground (arith, one, same, several) in
      rw
        (
          merged,
          unless-patches _ (update_existing b obj gvk desired updated) w
              (update_existing-patches desired updated w),
        )
        needed
