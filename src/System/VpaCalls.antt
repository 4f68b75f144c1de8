-- ===== src/System/VpaCalls.antt =====
-- The VPA reconciler of internal/controller/vpa_reconciler.go keeps whatever its reads and its deletes keep.
use autovpa.Common.{String, Option, none, some, not}
use autovpa.Kube.{Object, GroupVersionKind, NamespacedName, Result, ok, err, is_not_found}
use autovpa.Effect.{Action, throw, ◌>>◌, get, delete}
use autovpa.Effect.Keeps.{
  Keeps, OfResult, Anything, Keeps-pure, Keeps-throw, Keeps-attempt, Keeps-if, Keeps-bind,
  Keeps-then, Keeps-emit, keeps_rules,
}
use autovpa.Metrics.{
  inc_vpa_deleted_orphaned, inc_vpa_deleted_owner_gone, dec_vpa_managed, inc_reconcile_errors,
}
use autovpa.Controller.{vpa_gvk}
use autovpa.Controller.Vpa.{
  VpaReconciler, Owner, fetch_owner, ignore_not_found, delete_managed_vpa, or_count_error,
  delete_orphan, delete_owner_gone, check_owner, check_managed,
}

module _ {W : Type 0} (v : VpaReconciler W) (I : W → Type 0) (P : Object → Type 0)
    (deletes : (x : Object) → P x → Keeps I Anything (delete v.kube_client x))
    (gets : (gvk : GroupVersionKind) (key : NamespacedName)
      → Keeps I Anything (get v.kube_client gvk key)) where
  abbrev LeavesIt : {A : Type 0} → Action W A → Type 0
  LeavesIt m = Keeps I Anything m

  pub or_count_error-Leaves :
      {A : Type 0} {Q : A → Type 0} (reason : String) (r : Result A)
      → OfResult Q r
      → Keeps I Q (or_count_error v reason r)
  unfolding or_count_error inc_reconcile_errors
  or_count_error-Leaves reason (ok a) q = Keeps-pure a q
  or_count_error-Leaves reason (err e) q = Keeps-then _ _ (Keeps-emit _) (λ _. Keeps-throw e)

  pub delete_managed_vpa-Leaves : (x : Object) → P x → LeavesIt (delete_managed_vpa v x)
  unfolding delete_managed_vpa ignore_not_found
  delete_managed_vpa-Leaves x other = Keeps-then _ _ (Keeps-attempt _ (deletes x other)) ignored
    where
      ignored : (r : Result (Unit {0})) → LeavesIt (ignore_not_found v r)
      ignored (ok _) = Keeps-pure tt tt
      ignored (err e) = search keeps_rules

  pub delete_orphan-Leaves : (x : Object) → P x → LeavesIt (delete_orphan v x)
  unfolding delete_orphan inc_vpa_deleted_orphaned dec_vpa_managed
  delete_orphan-Leaves x other = Keeps-then _ _ (Keeps-emit _) (λ _.
      Keeps-bind _ _ (Keeps-attempt _ (delete_managed_vpa-Leaves x other)) (λ deleted q.
        Keeps-then _ _ (or_count_error-Leaves "delete" deleted q)
          (λ _. Keeps-then _ _ (Keeps-emit _) (λ _. Keeps-emit _))))

  pub delete_owner_gone-Leaves :
      (x : Object) (owner : Owner) → P x → LeavesIt (delete_owner_gone v x owner)
  unfolding delete_owner_gone inc_vpa_deleted_owner_gone dec_vpa_managed
  delete_owner_gone-Leaves x owner other = Keeps-then _ _ (Keeps-emit _) (λ _.
      Keeps-bind _ _ (Keeps-attempt _ (delete_managed_vpa-Leaves x other)) (λ deleted q.
        Keeps-then _ _ (or_count_error-Leaves "delete" deleted q)
          (λ _. Keeps-then _ _ (Keeps-emit _) (λ _. Keeps-emit _))))

  pub check_owner-Leaves :
      (x : Object) (owner : Owner) (found : Result Object)
      → P x
      → LeavesIt (check_owner v x owner found)
  unfolding check_owner inc_reconcile_errors
  check_owner-Leaves x owner (ok _) other = Keeps-pure tt tt
  check_owner-Leaves x owner (err e) other =
      Keeps-if (not (is_not_found e))
        (inc_reconcile_errors "vpa" vpa_gvk.kind "fetch_owner" >> throw e)
        (delete_owner_gone v x owner) (λ _. Keeps-then _ _ (Keeps-emit _) (λ _. Keeps-throw e))
        (λ _. delete_owner_gone-Leaves x owner other)

  pub check_managed-Leaves :
      (x : Object) (owner : Option Owner) → P x → LeavesIt (check_managed v x owner)
  unfolding check_managed fetch_owner
  check_managed-Leaves x none other = delete_orphan-Leaves x other
  check_managed-Leaves x (some owner) other =
      Keeps-then _ _ (Keeps-attempt _ (gets owner.gvk _))
        (λ found. check_owner-Leaves x owner found other)
