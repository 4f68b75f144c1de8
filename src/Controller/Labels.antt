-- ===== src/Controller/Labels.antt =====
-- The label values that internal/controller gives to the metrics of internal/metrics.
use autovpa.Common.{String, Option, none, some, List, [], ◌∷◌}
use autovpa.Kube.{Object, GroupVersionKind, NamespacedName, OwnerReference, Result, ok, err}
use autovpa.Config.{Profile}
use autovpa.Effect.{Action}
use autovpa.Effect.Emits.{Emits, Emits-bind}
use autovpa.Metrics.Labels.{labels_rules}
use autovpa.Metrics.Registry.{HasItsLabels, counter_options, gauge_options}
use autovpa.Metrics.{
  inc_vpa_created, inc_vpa_updated, inc_vpa_skipped, inc_vpa_managed, inc_vpa_deleted_obsolete,
  inc_vpa_deleted_opt_out, inc_vpa_deleted_workload_gone, dec_vpa_managed,
}
use autovpa.Controller.Base.Desired.{
  DesiredVpaState, BaseReconciler, found_or_none, fetch_existing_vpa, apply_vpa, create_vpa,
  update_vpa, as_listed, list_managed_vpas,
}
use autovpa.Controller.Base.Delete.{
  obsolete_deleted, delete_obsolete_one, delete_obsolete_loop, delete_obsolete_managed_vpas,
  managed_deleted, delete_managed_ref, delete_managed_refs, delete_managed_loop,
  delete_managed_vpas, count_opt_out, count_gone, delete_managed_vpas_for_opt_out,
  delete_managed_vpas_for_gone_workload,
}
use autovpa.Controller.Base.{
  opt_out, profile_missing, create_desired, update_existing, apply_desired, reconcile_profile,
  reconcile_workload,
}
use autovpa.Controller.Workload.{reconcile_fetched, reconcile_request}

module _ {W : Type 0} (b : BaseReconciler W) where
  as_listed-Emits : (r : Result (List Object)) → Emits HasItsLabels (as_listed b r)
  unfolding as_listed
  as_listed-Emits (ok items) = search labels_rules
  as_listed-Emits (err e) = search labels_rules

  list_managed_vpas-Emits : (ns : String) → Emits HasItsLabels (list_managed_vpas b ns)
  unfolding list_managed_vpas
  list_managed_vpas-Emits ns = search (labels_rules, as_listed-Emits)

  found_or_none-Emits : (r : Result Object) → Emits HasItsLabels (found_or_none b r)
  unfolding found_or_none
  found_or_none-Emits (ok vpa) = search labels_rules
  found_or_none-Emits (err e) = search labels_rules

  fetch_existing_vpa-Emits : (key : NamespacedName) → Emits HasItsLabels (fetch_existing_vpa b key)
  unfolding fetch_existing_vpa
  fetch_existing_vpa-Emits key = search (labels_rules, found_or_none-Emits)

  module _ (owner : Object) (kind : String) where
    obsolete_deleted-Emits :
        (vpa : Object) (r : Result Unit) → Emits HasItsLabels (obsolete_deleted b owner kind vpa r)
    unfolding obsolete_deleted inc_vpa_deleted_obsolete dec_vpa_managed counter_options
        gauge_options
    obsolete_deleted-Emits vpa (ok _) = search labels_rules
    obsolete_deleted-Emits vpa (err e) = search labels_rules

    delete_obsolete_one-Emits :
        (keep : String) (vpa : Object)
        → Emits HasItsLabels (delete_obsolete_one b owner kind keep vpa)
    unfolding delete_obsolete_one
    delete_obsolete_one-Emits keep vpa = search (labels_rules, obsolete_deleted-Emits)

    delete_obsolete_loop-Emits :
        (keep : String) (vpas : List Object)
        → Emits HasItsLabels (delete_obsolete_loop b owner kind keep vpas)
    unfolding delete_obsolete_loop
    delete_obsolete_loop-Emits keep [] = search labels_rules
    delete_obsolete_loop-Emits keep (vpa ∷ vpas) =
        Emits-bind _ _ (delete_obsolete_one-Emits keep vpa)
          (λ _. delete_obsolete_loop-Emits keep vpas)

    delete_obsolete_managed_vpas-Emits :
        (keep : String) → Emits HasItsLabels (delete_obsolete_managed_vpas b owner kind keep)
    unfolding delete_obsolete_managed_vpas
    delete_obsolete_managed_vpas-Emits keep =
        search (labels_rules, list_managed_vpas-Emits, delete_obsolete_loop-Emits)

    module _ (f : String → String → Action W Unit)
        (f-Emits : (ns profile : String) → Emits HasItsLabels (f ns profile)) where
      managed_deleted-Emits :
          (vpa : Object) (r : Result Unit)
          → Emits HasItsLabels (managed_deleted b owner kind (some f) vpa r)
      unfolding managed_deleted
      managed_deleted-Emits vpa (ok _) = search (labels_rules, f-Emits)
      managed_deleted-Emits vpa (err e) = search labels_rules

      delete_managed_ref-Emits :
          (vpa : Object) (ref : OwnerReference)
          → Emits HasItsLabels (delete_managed_ref b owner kind (some f) vpa ref)
      unfolding delete_managed_ref
      delete_managed_ref-Emits vpa ref = search (labels_rules, managed_deleted-Emits)

      delete_managed_refs-Emits :
          (vpa : Object) (refs : List OwnerReference)
          → Emits HasItsLabels (delete_managed_refs b owner kind (some f) vpa refs)
      unfolding delete_managed_refs
      delete_managed_refs-Emits vpa [] = search labels_rules
      delete_managed_refs-Emits vpa (ref ∷ refs) =
          Emits-bind _ _ (delete_managed_ref-Emits vpa ref)
            (λ _. delete_managed_refs-Emits vpa refs)

      delete_managed_loop-Emits :
          (vpas : List Object) → Emits HasItsLabels (delete_managed_loop b owner kind (some f) vpas)
      unfolding delete_managed_loop
      delete_managed_loop-Emits [] = search labels_rules
      delete_managed_loop-Emits (vpa ∷ vpas) =
          Emits-bind _ _ (delete_managed_refs-Emits vpa vpa.owner_references)
            (λ _. delete_managed_loop-Emits vpas)

      delete_managed_vpas-Emits : Emits HasItsLabels (delete_managed_vpas b owner kind (some f))
      unfolding delete_managed_vpas
      delete_managed_vpas-Emits =
          search (labels_rules, list_managed_vpas-Emits, delete_managed_loop-Emits)

    opt_out_cleanup-Emits : Emits HasItsLabels (delete_managed_vpas_for_opt_out b owner kind)
    unfolding delete_managed_vpas_for_opt_out count_opt_out inc_vpa_deleted_opt_out dec_vpa_managed
        counter_options gauge_options
    opt_out_cleanup-Emits =
        delete_managed_vpas-Emits (count_opt_out b owner kind) λ ns profile. search labels_rules

    gone_cleanup-Emits : Emits HasItsLabels (delete_managed_vpas_for_gone_workload b owner kind)
    unfolding delete_managed_vpas_for_gone_workload count_gone inc_vpa_deleted_workload_gone
        dec_vpa_managed counter_options gauge_options
    gone_cleanup-Emits =
        delete_managed_vpas-Emits (count_gone b owner kind) λ ns profile. search labels_rules

  module _ (obj : Object) (gvk : GroupVersionKind) where
    create_desired-Emits :
        (desired : DesiredVpaState) → Emits HasItsLabels (create_desired b obj gvk desired)
    unfolding create_desired create_vpa apply_vpa inc_vpa_created inc_vpa_managed counter_options
        gauge_options
    create_desired-Emits desired = search labels_rules

    update_existing-Emits :
        (desired : DesiredVpaState) (updated : Object)
        → Emits HasItsLabels (update_existing b obj gvk desired updated)
    unfolding update_existing update_vpa apply_vpa inc_vpa_updated counter_options
    update_existing-Emits desired updated = search labels_rules

    apply_desired-Emits :
        (desired : DesiredVpaState) (found : Option Object)
        → Emits HasItsLabels (apply_desired b obj gvk desired found)
    unfolding apply_desired
    apply_desired-Emits desired none = create_desired-Emits desired
    apply_desired-Emits desired (some existing) = search (labels_rules, update_existing-Emits)

    reconcile_profile-Emits :
        (selected : String) (profile : Option Profile)
        → Emits HasItsLabels (reconcile_profile b obj gvk selected profile)
    unfolding reconcile_profile profile_missing inc_vpa_skipped counter_options
    reconcile_profile-Emits selected none = search labels_rules
    reconcile_profile-Emits selected (some profile) = search (
      labels_rules, delete_obsolete_managed_vpas-Emits, fetch_existing_vpa-Emits,
      apply_desired-Emits,
    )

    reconcile_workload-Emits : Emits HasItsLabels (reconcile_workload b obj gvk)
    unfolding reconcile_workload opt_out inc_vpa_skipped counter_options
    reconcile_workload-Emits = search (labels_rules, opt_out_cleanup-Emits, reconcile_profile-Emits)

  reconcile_fetched-Emits :
      (gvk : GroupVersionKind) (req : NamespacedName) (found : Result Object)
      → Emits HasItsLabels (reconcile_fetched b gvk req found)
  unfolding reconcile_fetched
  reconcile_fetched-Emits gvk req (ok workload) = reconcile_workload-Emits workload gvk
  reconcile_fetched-Emits gvk req (err e) = search (labels_rules, gone_cleanup-Emits)

  -- Whatever a workload controller is asked and the client answers, every counter and the gauge is
  -- given as many label values as it was declared with, so that no metric call panics.
  pub reconcile_request-HasItsLabels :
      (gvk : GroupVersionKind) (req : NamespacedName)
      → Emits HasItsLabels (reconcile_request b gvk req)
  unfolding reconcile_request
  reconcile_request-HasItsLabels gvk req = search (labels_rules, reconcile_fetched-Emits)
