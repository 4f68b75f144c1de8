-- ===== src/Controller/Vpa/Labels.antt =====
-- The label values that internal/controller/vpa_reconciler.go gives to its metrics.
use autovpa.Common.{Option, none, some}
use autovpa.Kube.{Object, NamespacedName, Result, ok, err}
use autovpa.Effect.Emits.{Emits}
use autovpa.Metrics.{
  inc_vpa_deleted_orphaned, inc_vpa_deleted_owner_gone, dec_vpa_managed, inc_reconcile_errors,
}
use autovpa.Metrics.Labels.{labels_rules}
use autovpa.Metrics.Registry.{HasItsLabels, counter_options, gauge_options}
use autovpa.Controller.Vpa.{
  VpaReconciler, Owner, existing_or_none, fetch_existing_vpa, ignore_not_found, delete_managed_vpa,
  or_count_error, delete_orphan, delete_owner_gone, check_owner, check_managed, check_existing,
  fetch_owner, reconcile,
}

module _ {W : Type 0} (r : VpaReconciler W) where
  existing_or_none-Emits : (found : Result Object) → Emits HasItsLabels (existing_or_none r found)
  unfolding existing_or_none
  existing_or_none-Emits (ok vpa) = search labels_rules
  existing_or_none-Emits (err e) = search labels_rules

  ignore_not_found-Emits : (deleted : Result Unit) → Emits HasItsLabels (ignore_not_found r deleted)
  unfolding ignore_not_found
  ignore_not_found-Emits (ok _) = search labels_rules
  ignore_not_found-Emits (err e) = search labels_rules

  or_count_error-Emits :
      {A : Type 0} (reason : _) (found : Result A)
      → Emits HasItsLabels (or_count_error r reason found)
  unfolding or_count_error inc_reconcile_errors counter_options
  or_count_error-Emits reason (ok a) = search labels_rules
  or_count_error-Emits reason (err e) = search labels_rules

  delete_managed_vpa-Emits : (vpa : Object) → Emits HasItsLabels (delete_managed_vpa r vpa)
  unfolding delete_managed_vpa
  delete_managed_vpa-Emits vpa = search (labels_rules, ignore_not_found-Emits)

  delete_orphan-Emits : (vpa : Object) → Emits HasItsLabels (delete_orphan r vpa)
  unfolding delete_orphan inc_vpa_deleted_orphaned dec_vpa_managed counter_options gauge_options
  delete_orphan-Emits vpa = search (labels_rules, delete_managed_vpa-Emits, or_count_error-Emits)

  delete_owner_gone-Emits :
      (vpa : Object) (owner : Owner) → Emits HasItsLabels (delete_owner_gone r vpa owner)
  unfolding delete_owner_gone inc_vpa_deleted_owner_gone dec_vpa_managed counter_options
      gauge_options
  delete_owner_gone-Emits vpa owner =
      search (labels_rules, delete_managed_vpa-Emits, or_count_error-Emits)

  check_owner-Emits :
      (vpa : Object) (owner : Owner) (found : Result Object)
      → Emits HasItsLabels (check_owner r vpa owner found)
  unfolding check_owner inc_reconcile_errors counter_options
  check_owner-Emits vpa owner (ok _) = search labels_rules
  check_owner-Emits vpa owner (err e) = search (labels_rules, delete_owner_gone-Emits)

  check_managed-Emits :
      (vpa : Object) (owner : Option Owner) → Emits HasItsLabels (check_managed r vpa owner)
  unfolding check_managed fetch_owner
  check_managed-Emits vpa none = delete_orphan-Emits vpa
  check_managed-Emits vpa (some owner) = search (labels_rules, check_owner-Emits)

  check_existing-Emits : (found : Option Object) → Emits HasItsLabels (check_existing r found)
  unfolding check_existing
  check_existing-Emits none = search labels_rules
  check_existing-Emits (some vpa) = search (labels_rules, check_managed-Emits)

  -- Whatever the VPA controller is asked and the client answers, every counter and the gauge is given
  -- as many label values as it was declared with, so that no metric call panics.
  pub reconcile-HasItsLabels : (req : NamespacedName) → Emits HasItsLabels (reconcile r req)
  unfolding reconcile fetch_existing_vpa
  reconcile-HasItsLabels req =
      search (labels_rules, existing_or_none-Emits, or_count_error-Emits, check_existing-Emits)
