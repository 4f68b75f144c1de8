-- ===== src/Controller/Vpa.antt =====
-- internal/controller/vpa_reconciler.go: the safety net that deletes managed VPAs without an owner.
pub mod Decision
pub mod Errors
pub mod Labels
pub mod Requests
pub mod Gauge
use autovpa.Common.{
  String, Bool, not, Option, none, some, List, [], ◌∷◌, index, ◌==◌, if◌then◌else◌,
}
use autovpa.Kube.{
  OwnerReference, Object, GroupVersionKind, NamespacedName, is_not_found, Result, ok, err, Client,
}
use autovpa.Effect.{
  normal, record_event, Action, pure, throw, attempt, ◌>>=◌, ◌>>◌, emit, get, delete,
}
use autovpa.Metrics.{
  inc_vpa_deleted_orphaned, inc_vpa_deleted_owner_gone, dec_vpa_managed, inc_reconcile_errors,
}
use autovpa.Controller.{
  MetaConfig, vpa_gvk, deployment_gvk, stateful_set_gvk, daemon_set_gvk, profile_from_labels,
}
use autovpa.Controller.Events.{vpa_action_delete_vpa, vpa_event_orphaned, vpa_event_owner_deleted}

pub record VpaReconciler (W : Type 0) : Type 0 where
  pub kube_client : Client W
  pub meta : MetaConfig

-- The controller's kind and name
pub record Owner : Type 0 where
  pub gvk : GroupVersionKind
  pub name : String

-- `ref.Controller != nil && *ref.Controller`
abbrev pub is_controller : OwnerReference → Bool
is_controller ref = elim ref.controller [ none ↦ Bool.false | some flag ↦ flag ]

-- The cases of the switch on the kind
unfoldable pub supported : String → Option GroupVersionKind
supported kind =
    if kind == deployment_gvk.kind
    then some deployment_gvk
    else if kind == stateful_set_gvk.kind
    then some stateful_set_gvk
    else if kind == daemon_set_gvk.kind
    then some daemon_set_gvk
    else none

abbrev owner_or : OwnerReference → Option GroupVersionKind → Option Owner → Option Owner
owner_or ref none rest = rest
owner_or ref (some gvk) rest = some (record { gvk = gvk; name = ref.name })

unfoldable pub resolve_owner_gvk : List OwnerReference → Option Owner
unfolding supported
resolve_owner_gvk [] = none
resolve_owner_gvk (ref ∷ refs) =
    let rest = resolve_owner_gvk refs in
    if not (is_controller ref) then rest else owner_or ref (supported ref.kind) rest

module _ {W : Type 0} (r : VpaReconciler W) where
  unfoldable pub skip_unmanaged : Object → Bool
  unfolding index
  skip_unmanaged vpa = not (index vpa.labels r.meta.managed_label == "true")

  unfoldable pub fetch_owner : GroupVersionKind → (namespace name : String) → Action W Object
  fetch_owner gvk namespace name =
      get r.kube_client gvk (record { namespace = namespace; name = name })

  unfoldable pub existing_or_none : Result Object → Action W (Option Object)
  existing_or_none (ok vpa) = pure (some vpa)
  existing_or_none (err e) = if is_not_found e then pure none else throw e

  unfoldable pub fetch_existing_vpa : NamespacedName → Action W (Option Object)
  unfolding existing_or_none
  fetch_existing_vpa key = do
    found ← attempt (get r.kube_client vpa_gvk key)
    existing_or_none found

  unfoldable pub ignore_not_found : Result (Unit {0}) → Action W Unit
  ignore_not_found (ok _) = pure tt
  ignore_not_found (err e) = if is_not_found e then pure tt else throw e

  unfoldable pub delete_managed_vpa : Object → Action W Unit
  unfolding ignore_not_found
  delete_managed_vpa vpa = do deleted ← attempt (delete r.kube_client vpa); ignore_not_found deleted

  -- `if err != nil { IncReconcileErrors("vpa", kind, reason); return err }`
  unfoldable pub or_count_error : {A : Type 0} → (reason : String) → Result A → Action W A
  unfolding inc_reconcile_errors
  or_count_error reason (ok a) = pure a
  or_count_error reason (err e) = do inc_reconcile_errors "vpa" vpa_gvk.kind reason; throw e

  unfoldable pub delete_orphan : Object → Action W Unit
  unfolding delete_managed_vpa or_count_error inc_vpa_deleted_orphaned dec_vpa_managed
  delete_orphan vpa = do
    emit (
        record_event (record {
          regarding = vpa.name;
          related = none;
          type = normal;
          reason = vpa_event_orphaned;
          action = vpa_action_delete_vpa;
          args = vpa.namespace ∷ vpa.name ∷ [];
        }))
    deleted ← attempt (delete_managed_vpa vpa)
    or_count_error "delete" deleted
    let profile = profile_from_labels vpa.labels r.meta.profile_key
    inc_vpa_deleted_orphaned vpa.namespace
    dec_vpa_managed vpa.namespace profile

  unfoldable pub delete_owner_gone : Object → Owner → Action W Unit
  unfolding delete_managed_vpa or_count_error inc_vpa_deleted_owner_gone dec_vpa_managed
  delete_owner_gone vpa owner = do
    emit (
        record_event (record {
          regarding = vpa.name;
          related = none;
          type = normal;
          reason = vpa_event_owner_deleted;
          action = vpa_action_delete_vpa;
          args = owner.gvk.kind ∷ vpa.namespace ∷ owner.name ∷ vpa.name ∷ [];
        }))
    deleted ← attempt (delete_managed_vpa vpa)
    or_count_error "delete" deleted
    let profile = profile_from_labels vpa.labels r.meta.profile_key
    inc_vpa_deleted_owner_gone vpa.namespace owner.gvk.kind
    dec_vpa_managed vpa.namespace profile

  unfoldable pub check_owner : Object → Owner → Result Object → Action W Unit
  unfolding delete_owner_gone inc_reconcile_errors
  check_owner vpa owner (ok _) = pure tt
  check_owner vpa owner (err e) =
      if not (is_not_found e)
      then (do inc_reconcile_errors "vpa" vpa_gvk.kind "fetch_owner"; throw e)
      else delete_owner_gone vpa owner

  unfoldable pub check_managed : Object → Option Owner → Action W Unit
  unfolding delete_orphan check_owner fetch_owner
  check_managed vpa none = delete_orphan vpa
  check_managed vpa (some owner) = do
    found ← attempt (fetch_owner owner.gvk vpa.namespace owner.name)
    check_owner vpa owner found

  unfoldable pub check_existing : Option Object → Action W Unit
  unfolding check_managed skip_unmanaged resolve_owner_gvk
  check_existing none = pure tt
  check_existing (some vpa) =
      if skip_unmanaged vpa
      then pure tt
      else check_managed vpa (resolve_owner_gvk vpa.owner_references)

  unfoldable pub reconcile : NamespacedName → Action W Unit
  unfolding fetch_existing_vpa or_count_error check_existing
  reconcile req = do
    fetched ← attempt (fetch_existing_vpa req)
    vpa ← or_count_error "get" fetched
    check_existing vpa
