-- ===== src/Controller/Vpa/Errors.antt =====
-- How the reconciler of internal/controller/vpa_reconciler.go reports errors.
use autovpa.Common.{Option, none, some, arith, ◌≡◌, refl, any, Bool-cases, Option-cases, inl, inr}
use autovpa.Kube.{Object, NamespacedName, is_not_found, Result, ok, err}
use autovpa.Effect.{Action, ◌>>=◌, emit, get, delete}
use autovpa.Controller.Vpa.{
  VpaReconciler, Owner, existing_or_none, or_count_error, delete_orphan, delete_owner_gone,
  check_owner, check_managed, check_existing, reconcile, fetch_owner, skip_unmanaged,
  resolve_owner_gvk,
}
use autovpa.Effect.Counts.{is_error_count}
use autovpa.Controller.Vpa.Decision.{is_err, answered, reconcile_lem}

module _ {W : Type 0} (r : VpaReconciler W) where
  -- An error is counted, and nothing else is counted as one.
  abbrev pub Counts : Action W Unit → Type 0
  Counts m = (w : W) → any is_error_count (m w).calls ≡ is_err (m w).result

  delete_orphan-Counts : (vpa : Object) → Counts (delete_orphan r vpa)
  unfolding delete_orphan ◌>>=◌ emit delete
  delete_orphan-Counts vpa w = ground arith

  delete_owner_gone-Counts : (vpa : Object) (owner : Owner) → Counts (delete_owner_gone r vpa owner)
  unfolding delete_owner_gone ◌>>=◌ emit delete
  delete_owner_gone-Counts vpa owner w = ground arith

  check_owner-Counts :
      (vpa : Object) (owner : Owner) (found : Result Object)
      → Counts (check_owner r vpa owner found)
  unfolding check_owner ◌>>=◌ emit
  check_owner-Counts vpa owner (ok _) w = refl
  check_owner-Counts vpa owner (err e) w = elim (Bool-cases (is_not_found e)) [
    | inl gone ↦ rw gone (delete_owner_gone-Counts vpa owner w)
    | inr other ↦ rw other
  ]

  check_existing-Counts : (found : Option Object) → Counts (check_existing r found)
  unfolding check_existing check_managed ◌>>=◌ get fetch_owner
  check_existing-Counts none w = refl
  check_existing-Counts (some vpa) w = elim (Bool-cases (skip_unmanaged r vpa)) [
    | inl skip ↦ rw skip
    | inr managed ↦ elim (Option-cases (resolve_owner_gvk vpa.owner_references)) [
      | inl orphan ↦ rw (managed, orphan) (delete_orphan-Counts vpa w)
      | inr (owner, found) ↦ rw (managed, found) (check_owner-Counts vpa owner _ _)
    ]
  ]

  answered-Counts : (found : Result Object) → Counts (answered r found)
  unfolding existing_or_none or_count_error ◌>>=◌ emit
  answered-Counts (ok vpa) w = check_existing-Counts (some vpa) w
  answered-Counts (err e) w = elim (Bool-cases (is_not_found e)) [
    | inl gone ↦ rw gone (check_existing-Counts none w)
    | inr other ↦ rw other
  ]

  -- The VPA controller returns an error, and so is queued again, exactly when it has counted one in
  -- autovpa_reconcile_errors_total.
  pub error_is_counted :
      (req : NamespacedName) (w : W)
      → any is_error_count (reconcile r req w).calls ≡ is_err (reconcile r req w).result
  error_is_counted req w = rw reconcile_lem (answered-Counts _ _)
