-- ===== src/Controller/Base.antt =====
-- internal/controller/base_reconciler.go: ReconcileWorkload. A statement
-- `if err := f(); err != nil` that only passes the error on is a step of a `do` block.
pub mod Desired
pub mod Delete
pub mod Safety
pub mod Built
pub mod OwnWrites
pub mod Writes
pub mod OptIn
pub mod Asks
pub mod Drift
pub mod Settled
pub mod Gauge
pub mod Balance
pub mod DefaultProfile
mod Tests
use autovpa.Common.{
  String, not, ◌||◌, Option, none, some, [], ◌∷◌, index?, ◌==◌, if◌then◌else◌, Bool, true, false,
  or_empty,
}
use autovpa.Kube.{Object, GroupVersionKind}
use autovpa.Effect.{normal, warning, record_event, Action, pure, lift, ◌>>=◌, ◌>>◌, emit}
use autovpa.Metrics.{inc_vpa_created, inc_vpa_updated, inc_vpa_skipped, inc_vpa_managed}
use autovpa.Config.{Profile}
use autovpa.Utils.{default_if_zero}
use autovpa.Controller.{vpa_needs_update}
use autovpa.Controller.Events.{
  vpa_event_profile_annotation_missing, vpa_event_profile_not_found, vpa_event_vpa_created,
  vpa_event_vpa_updated, vpa_action_skip_vpa, vpa_action_create_vpa, vpa_action_update_vpa,
  vpa_skip_reason_annotation_missing, vpa_skip_reason_profile_missing,
}
use Desired.{
  DesiredVpaState, BaseReconciler, build_desired_vpa, fetch_existing_vpa, merge_vpa, create_vpa,
  update_vpa,
}
use Delete.{delete_obsolete_managed_vpas, delete_managed_vpas_for_opt_out}

module _ {W : Type 0} (b : BaseReconciler W) (obj : Object) (target_gvk : GroupVersionKind) where
  -- No profile annotation: an event, a metric, and the cleanup.
  unfoldable pub opt_out : Action W Unit
  unfolding inc_vpa_skipped
  opt_out = do
    emit (
        record_event (record {
          regarding = obj.name;
          related = none;
          type = warning;
          reason = vpa_event_profile_annotation_missing;
          action = vpa_action_skip_vpa;
          args = b.meta.profile_key ∷ [];
        }))
    inc_vpa_skipped obj.namespace obj.name target_gvk.kind vpa_skip_reason_annotation_missing
    delete_managed_vpas_for_opt_out b obj target_gvk.kind

  unfoldable pub profile_missing : (selected : String) → Action W Unit
  unfolding inc_vpa_skipped
  profile_missing selected = do
    emit (
        record_event (record {
          regarding = obj.name;
          related = none;
          type = warning;
          reason = vpa_event_profile_not_found;
          action = vpa_action_skip_vpa;
          args = selected ∷ [];
        }))
    inc_vpa_skipped obj.namespace obj.name target_gvk.kind vpa_skip_reason_profile_missing

  -- The VPA does not exist yet. `desired.profile` is the selected profile.
  unfoldable pub create_desired : DesiredVpaState → Action W Unit
  unfolding create_vpa inc_vpa_created inc_vpa_managed
  create_desired desired = do
    create_vpa b obj desired.name desired.labels desired.spec
    emit (
        record_event (record {
          regarding = obj.name;
          related = none;
          type = normal;
          reason = vpa_event_vpa_created;
          action = vpa_action_create_vpa;
          args = desired.name ∷ desired.profile ∷ [];
        }))
    inc_vpa_created obj.namespace obj.name target_gvk.kind desired.profile
    inc_vpa_managed obj.namespace desired.profile

  unfoldable pub update_existing : DesiredVpaState → (updated : Object) → Action W Unit
  unfolding update_vpa inc_vpa_updated
  update_existing desired updated = do
    update_vpa b updated
    emit (
        record_event (record {
          regarding = obj.name;
          related = some updated.name;
          type = normal;
          reason = vpa_event_vpa_updated;
          action = vpa_action_update_vpa;
          args = desired.name ∷ desired.profile ∷ [];
        }))
    inc_vpa_updated obj.namespace obj.name target_gvk.kind desired.profile

  -- The object to create, or the existing one to merge into; no write if nothing changed.
  unfoldable pub apply_desired : DesiredVpaState → Option Object → Action W Unit
  unfolding create_desired update_existing vpa_needs_update merge_vpa
  apply_desired desired none = create_desired desired
  apply_desired desired (some existing) = do
    updated ← lift (merge_vpa b existing desired obj)
    if not (vpa_needs_update b.platform (some existing) (some updated))
        then pure tt
        else update_existing desired updated

  unfoldable pub reconcile_profile : (selected : String) → Option Profile → Action W Unit
  unfolding profile_missing build_desired_vpa apply_desired
  reconcile_profile selected none = profile_missing selected
  reconcile_profile selected (some profile) = do
    desired ← lift (build_desired_vpa b obj target_gvk selected profile)
    delete_obsolete_managed_vpas b obj target_gvk.kind desired.name
    existing ← fetch_existing_vpa b (record { name = desired.name; namespace = obj.namespace })
    apply_desired desired existing

  abbrev has_profile : Option String → Bool
  has_profile none = false
  has_profile (some _) = true

  unfoldable pub reconcile_workload : Action W Unit
  unfolding opt_out reconcile_profile default_if_zero
  reconcile_workload =
      let annotation = index? obj.annotations b.meta.profile_key in
      let profile_name = or_empty annotation in
      let selected = default_if_zero profile_name b.profiles.default in
      if not (has_profile annotation) || profile_name == ""
      then opt_out
      else reconcile_profile selected (index? b.profiles.entries selected)
