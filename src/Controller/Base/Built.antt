-- ===== src/Controller/Base/Built.antt =====
-- What buildDesiredVPA of internal/controller/base_reconciler.go builds.
use autovpa.Common.{
  String, some, [], eq_iff, eq_self, arith, ◌≡◌, ◌≢◌, Map, Entries, index?, index, IsMap, entries,
  insert, lookup-insert, insert-IsMap,
}
use autovpa.Kube.{Object, GroupVersionKind, Result, ok, err}
use autovpa.Config.{Profile}
use autovpa.Utils.{default_if_zero, merge_maps}
use autovpa.Utils.Maps.{index?-merge_maps}
use autovpa.Controller.{render_vpa_name, build_vpa_spec}
use autovpa.Controller.Base.Desired.{
  DesiredVpaState, BaseReconciler, operator_labels, desired_state, build_desired_vpa,
}

module _ {W : Type 0} (b : BaseReconciler W) (obj : Object) (gvk : GroupVersionKind) where
  -- What buildDesiredVPA promises of its result.
  pub record IsDesired (selected : String) (profile : Profile) (desired : DesiredVpaState)
      : Type 0 where
    pub rendered :
        render_vpa_name b.engine
          (default_if_zero profile.name_template b.profiles.name_template)
          (record {
            workload_name = obj.name;
            namespace = obj.namespace;
            kind = gvk.kind;
            profile = selected;
          })
        ≡ ok desired.name
    pub built : build_vpa_spec b.platform profile.spec gvk obj.name ≡ ok desired.spec
    pub labelled : desired.labels ≡ operator_labels b selected
    pub selects : desired.profile ≡ selected

  desired_state-IsDesired :
      (selected : String) (profile : Profile) (desired : DesiredVpaState) (name : Result String)
      (spec : Result _)
      → desired_state b selected name spec ≡ ok desired
      → (name ≡ ok desired.name)
        × (spec ≡ ok desired.spec)
        × (desired.labels ≡ operator_labels b selected)
        × (desired.profile ≡ selected)
  desired_state-IsDesired selected profile desired (ok n) (ok s) h = ground arith
  desired_state-IsDesired selected profile desired (ok n) (err e) h = ground arith
  desired_state-IsDesired selected profile desired (err e) s h = ground arith

  pub build_desired_vpa-IsDesired :
      (selected : String) (profile : Profile) (desired : DesiredVpaState)
      → build_desired_vpa b obj gvk selected profile ≡ ok desired
      → IsDesired selected profile desired
  unfolding build_desired_vpa
  build_desired_vpa-IsDesired selected profile desired h =
      let (n, s, l, p) = desired_state-IsDesired selected profile desired _ _ h in
      record { rendered = n; built = s; labelled = l; selects = p }

  -- The operator's two labels, which must have different keys.
  module _ (selected : String) (distinct : b.meta.managed_label ≢ b.meta.profile_key) where
    pub operator_labels-IsMap : IsMap (entries (operator_labels b selected))
    unfolding operator_labels
    operator_labels-IsMap =
        insert-IsMap b.meta.profile_key selected _ (insert-IsMap b.meta.managed_label "true" [] tt)

    pub index?-operator_labels :
        (index? (operator_labels b selected) b.meta.managed_label ≡ some "true")
        × (index? (operator_labels b selected) b.meta.profile_key ≡ some selected)
    unfolding operator_labels index?
    index?-operator_labels =
        let profile = b.meta.profile_key in
        let managed = b.meta.managed_label in
        let on : String = "true" in
        let inner : Entries String = insert managed on [] in
        (
          ground (
            arith,
            lookup-insert profile managed selected inner,
            lookup-insert managed managed on [],
            eq_iff profile managed,
            eq_self managed,
          ),
          ground (arith, lookup-insert profile profile selected inner, eq_self profile),
        )

    pub index-operator_labels :
        (index (operator_labels b selected) b.meta.managed_label ≡ "true")
        × (index (operator_labels b selected) b.meta.profile_key ≡ selected)
    unfolding index
    index-operator_labels = let (m, p) = index?-operator_labels in (cc m, cc p)

    -- A merge with the operator's labels carries them.
    pub index-merged :
        (labels : Map String)
        → (index (merge_maps labels (operator_labels b selected)) b.meta.managed_label ≡ "true")
          × (index (merge_maps labels (operator_labels b selected)) b.meta.profile_key ≡ selected)
    unfolding index
    index-merged labels =
        let merged = λ (k : String).
          index?-merge_maps labels (operator_labels b selected) k operator_labels-IsMap in
        let (m, p) = index?-operator_labels in
        (cc (merged b.meta.managed_label, m), cc (merged b.meta.profile_key, p))
