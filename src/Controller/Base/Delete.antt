-- ===== src/Controller/Base/Delete.antt =====
-- internal/controller/base_reconciler.go: the deletion of managed VPAs.
use Prim.Native.String.{◌++◌}
use autovpa.Common.{String, not, ◌||◌, Option, none, some, List, [], ◌∷◌, ◌==◌, if◌then◌else◌}
use autovpa.Kube.{OwnerReference, Object, wrapped, is_not_found, Result, ok, err}
use autovpa.Effect.{normal, record_event, Action, pure, throw, attempt, ◌>>=◌, ◌>>◌, emit, delete}
use autovpa.Metrics.{
  inc_vpa_deleted_obsolete, inc_vpa_deleted_opt_out, inc_vpa_deleted_workload_gone, dec_vpa_managed,
}
use autovpa.Controller.{profile_from_labels}
use autovpa.Controller.Events.{
  vpa_event_deleted_managed_vpa, vpa_event_deleted_obsolete_vpa, vpa_action_delete_vpa,
}
use autovpa.Controller.Base.Desired.{BaseReconciler, list_managed_vpas}

module _ {W : Type 0} (b : BaseReconciler W) (owner : Object) (workload_kind : String) where
  -- What follows the call of Delete in DeleteObsoleteManagedVPAs.
  unfoldable pub obsolete_deleted : Object → Result (Unit {0}) → Action W Unit
  unfolding inc_vpa_deleted_obsolete dec_vpa_managed
  obsolete_deleted vpa (err e) =
      if is_not_found e then pure tt else throw (wrapped ("delete obsolete VPA " ++ vpa.name) e)
  obsolete_deleted vpa (ok _) = do
    let profile = profile_from_labels vpa.labels b.meta.profile_key
    inc_vpa_deleted_obsolete owner.namespace workload_kind
    dec_vpa_managed owner.namespace profile
    emit (
        record_event (record {
          regarding = owner.name;
          related = some vpa.name;
          type = normal;
          reason = vpa_event_deleted_obsolete_vpa;
          action = vpa_action_delete_vpa;
          args = vpa.name ∷ [];
        }))

  -- The body of the loop.
  unfoldable pub delete_obsolete_one : (keep_name : String) → Object → Action W Unit
  unfolding obsolete_deleted
  delete_obsolete_one keep_name vpa =
      if vpa.name == keep_name
      then pure tt
      else if not (b.platform.is_controlled_by vpa owner)
      then pure tt
      else do r ← attempt (delete b.kube_client vpa); obsolete_deleted vpa r

  unfoldable pub delete_obsolete_loop : (keep_name : String) → List Object → Action W Unit
  unfolding delete_obsolete_one
  delete_obsolete_loop keep_name [] = pure tt
  delete_obsolete_loop keep_name (vpa ∷ vpas) = do
    delete_obsolete_one keep_name vpa
    delete_obsolete_loop keep_name vpas

  unfoldable pub delete_obsolete_managed_vpas : (keep_name : String) → Action W Unit
  unfolding delete_obsolete_loop
  delete_obsolete_managed_vpas keep_name = do
    vpas ← list_managed_vpas b owner.namespace
    delete_obsolete_loop keep_name vpas

  module _ (on_delete : Option (String → String → Action W Unit)) where
    abbrev call_back : Object → Action W Unit
    call_back vpa = elim on_delete [
      | none ↦ pure tt
      | some f ↦ f owner.namespace (profile_from_labels vpa.labels b.meta.profile_key)
    ]

    -- What follows the call of Delete in deleteManagedVPAs.
    unfoldable pub managed_deleted : Object → Result (Unit {0}) → Action W Unit
    managed_deleted vpa (err e) =
        if is_not_found e then pure tt else throw (wrapped ("delete VPA " ++ vpa.name) e)
    managed_deleted vpa (ok _) = do
      call_back vpa
      emit (
          record_event (record {
            regarding = owner.name;
            related = some vpa.name;
            type = normal;
            reason = vpa_event_deleted_managed_vpa;
            action = vpa_action_delete_vpa;
            args = vpa.name ∷ owner.name ∷ [];
          }))

    -- The body of the inner loop.
    unfoldable pub delete_managed_ref : Object → OwnerReference → Action W Unit
    unfolding managed_deleted
    delete_managed_ref vpa ref =
        if not (ref.kind == workload_kind) || not (ref.name == owner.name)
        then pure tt
        else do r ← attempt (delete b.kube_client vpa); managed_deleted vpa r

    unfoldable pub delete_managed_refs : Object → List OwnerReference → Action W Unit
    unfolding delete_managed_ref
    delete_managed_refs vpa [] = pure tt
    delete_managed_refs vpa (ref ∷ refs) = do
      delete_managed_ref vpa ref
      delete_managed_refs vpa refs

    unfoldable pub delete_managed_loop : List Object → Action W Unit
    unfolding delete_managed_refs
    delete_managed_loop [] = pure tt
    delete_managed_loop (vpa ∷ vpas) = do
      delete_managed_refs vpa vpa.owner_references
      delete_managed_loop vpas

    unfoldable pub delete_managed_vpas : Action W Unit
    unfolding delete_managed_loop
    delete_managed_vpas = do vpas ← list_managed_vpas b owner.namespace; delete_managed_loop vpas

  -- The callbacks
  unfoldable pub count_opt_out : (ns profile : String) → Action W Unit
  unfolding inc_vpa_deleted_opt_out dec_vpa_managed
  count_opt_out ns profile = do inc_vpa_deleted_opt_out ns workload_kind; dec_vpa_managed ns profile

  unfoldable pub count_gone : (ns profile : String) → Action W Unit
  unfolding inc_vpa_deleted_workload_gone dec_vpa_managed
  count_gone ns profile = do
    inc_vpa_deleted_workload_gone ns workload_kind
    dec_vpa_managed ns profile

  unfoldable pub delete_managed_vpas_for_opt_out : Action W Unit
  unfolding delete_managed_vpas
  delete_managed_vpas_for_opt_out = delete_managed_vpas (some count_opt_out)

  unfoldable pub delete_managed_vpas_for_gone_workload : Action W Unit
  unfolding delete_managed_vpas
  delete_managed_vpas_for_gone_workload = delete_managed_vpas (some count_gone)
