-- ===== src/Controller/Vpa/Requests.antt =====
-- How many requests the VPA controller, internal/controller/vpa_reconciler.go, sends to the API server.
use autovpa.Common.{String, ℕ, Option, none, some, arith}
use autovpa.Kube.{Object, NamespacedName, Result, ok, err}
use autovpa.Effect.{Call, ◌>>=◌, emit, get, delete}
use autovpa.Effect.Costs.{
  Costs, Costs-then, Costs-weaken, Costs-if, Costs-pure, Costs-get, Costs-attempt, nothing,
}
use autovpa.Metrics.{
  inc_vpa_deleted_orphaned, inc_vpa_deleted_owner_gone, dec_vpa_managed, inc_reconcile_errors,
}
use autovpa.Controller.Vpa.{
  VpaReconciler, Owner, fetch_existing_vpa, existing_or_none, ignore_not_found, delete_managed_vpa,
  or_count_error, delete_orphan, delete_owner_gone, check_owner, check_managed, check_existing,
  fetch_owner, reconcile,
}

-- It lists nothing.
abbrev free : Call → ℕ
free c = 0

module _ {W : Type 0} (r : VpaReconciler W) where
  fetch-Costs : (key : NamespacedName) → Costs free 1 nothing (fetch_existing_vpa r key)
  unfolding fetch_existing_vpa existing_or_none ◌>>=◌ get
  fetch-Costs key = record { at = λ w. ground arith }

  or_count_error-Costs :
      {A : Type 0} (reason : String) (found : Result A)
      → Costs free 0 nothing (or_count_error r reason found)
  unfolding or_count_error inc_reconcile_errors ◌>>=◌ emit
  or_count_error-Costs reason (ok a) = Costs-pure 0 a
  or_count_error-Costs reason (err e) = record { at = λ w. omega arith }

  delete_orphan-Costs : (vpa : Object) → Costs free 1 nothing (delete_orphan r vpa)
  unfolding delete_orphan delete_managed_vpa ignore_not_found or_count_error inc_reconcile_errors
      inc_vpa_deleted_orphaned dec_vpa_managed ◌>>=◌ delete emit
  delete_orphan-Costs vpa = record { at = λ w. ground arith }

  check_owner-Costs :
      (vpa : Object) (owner : Owner) (found : Result Object)
      → Costs free 1 nothing (check_owner r vpa owner found)
  unfolding check_owner delete_owner_gone delete_managed_vpa ignore_not_found or_count_error
      inc_reconcile_errors inc_vpa_deleted_owner_gone dec_vpa_managed ◌>>=◌ delete emit
  check_owner-Costs vpa owner found = record { at = λ w. ground arith }

  check_managed-Costs :
      (vpa : Object) (owner : Option Owner) → Costs free 2 nothing (check_managed r vpa owner)
  unfolding check_managed fetch_owner
  check_managed-Costs vpa none = Costs-weaken 1 2 _ _ (omega arith) (delete_orphan-Costs vpa)
  check_managed-Costs vpa (some owner) =
      Costs-then 1 1 _ _ (Costs-get _ _ _) (check_owner-Costs vpa owner)

  check_existing-Costs : (found : Option Object) → Costs free 2 nothing (check_existing r found)
  unfolding check_existing
  check_existing-Costs none = Costs-pure 2 tt
  check_existing-Costs (some vpa) = Costs-if 2 _ _ _ _ (Costs-pure 2 tt) (check_managed-Costs vpa _)

  pub reconcile-Costs : (req : NamespacedName) → Costs free 3 nothing (reconcile r req)
  unfolding reconcile
  reconcile-Costs req =
      Costs-then 1 2 _ _ (Costs-attempt 1 _ (fetch-Costs req))
        (λ fetched. Costs-then 0 2 _ _ (or_count_error-Costs "get" fetched) check_existing-Costs)
