-- ===== src/Controller/Requests.antt =====
-- How many requests a workload controller of internal/controller sends to the API server.
use autovpa.Common.{
  count_if, ◌≤◌, refl, String, ◌+◌, Option, none, some, List, [], ◌∷◌, length, arith,
}
use autovpa.Kube.{Object, GroupVersionKind, NamespacedName, OwnerReference, Result, ok, err}
use autovpa.Config.{Profile}
use autovpa.Effect.{Action, ◌>>=◌, emit, get, list, delete, patch}
use autovpa.Effect.Counts.{is_request}
use autovpa.Effect.Costs.{
  listed_by, total, total_of_nothing, Costs, Costs-spend, Costs-then, Costs-weaken, Costs-if,
  Costs-lift, Costs-pure, Costs-throw, Costs-emit, Costs-get, weight, nothing,
}
use autovpa.Metrics.{
  inc_vpa_created, inc_vpa_updated, inc_vpa_skipped, inc_vpa_managed, inc_vpa_deleted_obsolete,
  inc_vpa_deleted_opt_out, inc_vpa_deleted_workload_gone, dec_vpa_managed,
}
use autovpa.Controller.Base.Desired.{
  DesiredVpaState, BaseReconciler, found_or_none, fetch_existing_vpa, apply_vpa, create_vpa,
  update_vpa, as_listed, list_managed_vpas,
}
use autovpa.Controller.Base.Delete.{
  obsolete_deleted, delete_obsolete_one, delete_obsolete_loop, delete_obsolete_managed_vpas,
  managed_deleted, delete_managed_ref, delete_managed_refs, delete_managed_loop,
  delete_managed_vpas, count_opt_out, count_gone, delete_managed_vpas_for_opt_out,
  delete_managed_vpas_for_gone_workload,
}
use autovpa.Controller.Base.{
  opt_out, profile_missing, create_desired, update_existing, apply_desired, reconcile_profile,
  reconcile_workload,
}
use autovpa.Controller.Vpa.{VpaReconciler, reconcile}
use autovpa.Controller.Vpa.Requests.{reconcile-Costs}
use autovpa.Controller.Workload.{gone_workload, reconcile_fetched, reconcile_request}

module _ {W : Type 0} (b : BaseReconciler W) where
  list_managed_vpas-Costs : (ns : String) → Costs listed_by 1 weight (list_managed_vpas b ns)
  unfolding list_managed_vpas ◌>>=◌ list as_listed
  list_managed_vpas-Costs ns = record { at = λ w. ground arith }

  fetch_existing_vpa-Costs :
      (key : NamespacedName) → Costs listed_by 1 nothing (fetch_existing_vpa b key)
  unfolding fetch_existing_vpa ◌>>=◌ get found_or_none
  fetch_existing_vpa-Costs key = record { at = λ w. ground arith }

  module _ (owner : Object) (kind : String) where
    delete_obsolete_one-Costs :
        (keep : String) (vpa : Object)
        → Costs listed_by 1 nothing (delete_obsolete_one b owner kind keep vpa)
    unfolding delete_obsolete_one obsolete_deleted inc_vpa_deleted_obsolete dec_vpa_managed ◌>>=◌
        delete emit
    delete_obsolete_one-Costs keep vpa = record { at = λ w. ground arith }

    delete_obsolete_loop-Costs :
        (keep : String) (vpas : List Object)
        → Costs listed_by (weight vpas) nothing (delete_obsolete_loop b owner kind keep vpas)
    unfolding delete_obsolete_loop
    delete_obsolete_loop-Costs keep [] = record { at = λ w. omega arith }
    delete_obsolete_loop-Costs keep (vpa ∷ vpas) =
        Costs-weaken (1 + weight vpas) _ _ _ (omega arith) (
          Costs-then _ _ _ _ (delete_obsolete_one-Costs keep vpa)
            (λ _. delete_obsolete_loop-Costs keep vpas))

    delete_obsolete_managed_vpas-Costs :
        (keep : String) → Costs listed_by 1 nothing (delete_obsolete_managed_vpas b owner kind keep)
    unfolding delete_obsolete_managed_vpas
    delete_obsolete_managed_vpas-Costs keep =
        Costs-spend 1 weight _ _ (list_managed_vpas-Costs owner.namespace)
          (delete_obsolete_loop-Costs keep)

    module _ (on_delete : Option (String → String → Action W Unit))
        (ref-Costs : (vpa : Object) (ref : OwnerReference)
          → Costs listed_by 1 nothing (delete_managed_ref b owner kind on_delete vpa ref)) where
      delete_managed_refs-Costs :
          (vpa : Object) (refs : List OwnerReference)
          → Costs listed_by
              (length refs)
              nothing
              (delete_managed_refs b owner kind on_delete vpa refs)
      unfolding delete_managed_refs
      delete_managed_refs-Costs vpa [] = record { at = λ w. omega arith }
      delete_managed_refs-Costs vpa (ref ∷ refs) =
          Costs-weaken (1 + length refs) _ _ _ (omega arith)
            (Costs-then _ _ _ _ (ref-Costs vpa ref) (λ _. delete_managed_refs-Costs vpa refs))

      delete_managed_loop-Costs :
          (vpas : List Object)
          → Costs listed_by (weight vpas) nothing (delete_managed_loop b owner kind on_delete vpas)
      unfolding delete_managed_loop
      delete_managed_loop-Costs [] = record { at = λ w. omega arith }
      delete_managed_loop-Costs (vpa ∷ vpas) =
          Costs-weaken (length vpa.owner_references + weight vpas) _ _ _ (omega arith) (
            Costs-then _ _ _ _ (delete_managed_refs-Costs vpa vpa.owner_references)
              (λ _. delete_managed_loop-Costs vpas))

      delete_managed_vpas-Costs :
          Costs listed_by 1 nothing (delete_managed_vpas b owner kind on_delete)
      unfolding delete_managed_vpas
      delete_managed_vpas-Costs =
          Costs-spend 1 weight _ _ (list_managed_vpas-Costs owner.namespace)
            delete_managed_loop-Costs

    opt_out_cleanup-Costs : Costs listed_by 1 nothing (delete_managed_vpas_for_opt_out b owner kind)
    unfolding delete_managed_vpas_for_opt_out delete_managed_ref managed_deleted count_opt_out
        inc_vpa_deleted_opt_out dec_vpa_managed ◌>>=◌ delete emit
    opt_out_cleanup-Costs =
        delete_managed_vpas-Costs (some (count_opt_out b owner kind))
          (λ vpa ref. record { at = λ w. ground arith })

    gone_cleanup-Costs :
        Costs listed_by 1 nothing (delete_managed_vpas_for_gone_workload b owner kind)
    unfolding delete_managed_vpas_for_gone_workload delete_managed_ref managed_deleted count_gone
        inc_vpa_deleted_workload_gone dec_vpa_managed ◌>>=◌ delete emit
    gone_cleanup-Costs =
        delete_managed_vpas-Costs (some (count_gone b owner kind))
          (λ vpa ref. record { at = λ w. ground arith })

  module _ (obj : Object) (gvk : GroupVersionKind) where
    create_desired-Costs :
        (desired : DesiredVpaState) → Costs listed_by 1 nothing (create_desired b obj gvk desired)
    unfolding create_desired create_vpa apply_vpa inc_vpa_created inc_vpa_managed ◌>>=◌ patch emit
    create_desired-Costs desired = record { at = λ w. ground arith }

    update_existing-Costs :
        (desired : DesiredVpaState) (updated : Object)
        → Costs listed_by 1 nothing (update_existing b obj gvk desired updated)
    unfolding update_existing update_vpa apply_vpa inc_vpa_updated ◌>>=◌ patch emit
    update_existing-Costs desired updated = record { at = λ w. ground arith }

    apply_desired-Costs :
        (desired : DesiredVpaState) (found : Option Object)
        → Costs listed_by 1 nothing (apply_desired b obj gvk desired found)
    unfolding apply_desired
    apply_desired-Costs desired none = create_desired-Costs desired
    apply_desired-Costs desired (some existing) =
        Costs-then 0 1 _ _ (Costs-lift _)
          (λ updated. Costs-if 1 _ _ _ _ (Costs-pure 1 tt) (update_existing-Costs desired updated))

    reconcile_profile-Costs :
        (selected : String) (profile : Option Profile)
        → Costs listed_by 3 nothing (reconcile_profile b obj gvk selected profile)
    unfolding reconcile_profile profile_missing inc_vpa_skipped ◌>>=◌ emit
    reconcile_profile-Costs selected none = record { at = λ w. ground arith }
    reconcile_profile-Costs selected (some profile) = Costs-then 0 3 _ _ (Costs-lift _) (λ desired.
        Costs-then 1 2 _ _ (delete_obsolete_managed_vpas-Costs obj gvk.kind desired.name)
          (λ _. Costs-then 1 1 _ _ (fetch_existing_vpa-Costs _) (apply_desired-Costs desired)))

    opt_out-Costs : Costs listed_by 1 nothing (opt_out b obj gvk)
    unfolding opt_out inc_vpa_skipped
    opt_out-Costs =
        Costs-then 0 1 _ _ (Costs-emit _ refl)
          (λ _. Costs-then 0 1 _ _ (Costs-emit _ refl) (λ _. opt_out_cleanup-Costs obj gvk.kind))

    reconcile_workload-Costs : Costs listed_by 3 nothing (reconcile_workload b obj gvk)
    unfolding reconcile_workload
    reconcile_workload-Costs =
        Costs-if 3 _ _ _ _ (Costs-weaken 1 3 _ _ (omega arith) opt_out-Costs)
          (reconcile_profile-Costs _ _)

  reconcile_fetched-Costs :
      (gvk : GroupVersionKind) (req : NamespacedName) (found : Result Object)
      → Costs listed_by 3 nothing (reconcile_fetched b gvk req found)
  unfolding reconcile_fetched
  reconcile_fetched-Costs gvk req (ok workload) = reconcile_workload-Costs workload gvk
  reconcile_fetched-Costs gvk req (err e) =
      Costs-if 3 _ _ _ _
        (Costs-weaken 1 3 _ _ (omega arith) (gone_cleanup-Costs (gone_workload b gvk req) gvk.kind))
        (Costs-throw 3 _)

  reconcile_request-Costs :
      (gvk : GroupVersionKind) (req : NamespacedName)
      → Costs listed_by 4 nothing (reconcile_request b gvk req)
  unfolding reconcile_request
  reconcile_request-Costs gvk req =
      Costs-then 1 3 _ _ (Costs-get _ gvk req) (reconcile_fetched-Costs gvk req)

-- Whatever the client answers, a reconciliation comes to its end: a workload controller sends at most
-- four requests to the API server, and one more for each VPA that the server lists for it and one for
-- each owner reference of such a VPA, and the VPA controller sends at most three.
pub requests_bounded :
    {W : Type 0} (b : BaseReconciler W) (r : VpaReconciler W) (gvk : GroupVersionKind)
    (req : NamespacedName) (w : W)
    → (count_if is_request (reconcile_request b gvk req w).calls
        ≤ 4 + total listed_by (reconcile_request b gvk req w).calls)
      × (count_if is_request (reconcile r req w).calls ≤ 3)
requests_bounded b r gvk req w = (
  omega (arith, (reconcile_request-Costs b gvk req).at w),
  omega (arith, (reconcile-Costs r req).at w, total_of_nothing (reconcile r req w).calls),
)
