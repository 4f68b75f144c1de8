-- ===== src/System/VpaDeletes.antt =====
-- A delete of the VPA reconciler, internal/controller/vpa_reconciler.go, that succeeds leaves nothing under
-- the key of the VPA.
use autovpa.Common.{Option, ◌≢◌}
use autovpa.Kube.{Object, NamespacedName, Error, Result, ok, err, is_not_found}
use autovpa.Effect.{Action, ◌>>=◌, emit}
use autovpa.Effect.Keeps.{
  Keeps, Anything, Keeps-pure, Keeps-throw, Keeps-if, Keeps-then, Keeps-emit,
}
use autovpa.Effect.Ends.{Ends, Ends-last, Ends-attempt}
use autovpa.Metrics.{
  inc_vpa_deleted_orphaned, inc_vpa_deleted_owner_gone, dec_vpa_managed, inc_reconcile_errors,
}
use autovpa.Controller.Base.Desired.{BaseReconciler}
use autovpa.Controller.Vpa.{
  Owner, ignore_not_found, delete_managed_vpa, or_count_error, delete_orphan, delete_owner_gone,
}
use autovpa.System.{IsApiServer, vpa_reconciler_of}
use autovpa.System.Gone.{Gone, delete-Ends, passes-eq-true}

module _ {W : Type 0} (b : BaseReconciler W) (stored : W → NamespacedName → Option Object)
    (server : IsApiServer b.kube_client b.platform stored) (x : Object) where
  abbrev IsGone : W → Type 0
  IsGone = Gone b stored server.fresh server.complete x

  ignore_not_found-IsGone :
      (r : Result (Unit {0})) → Keeps IsGone Anything (ignore_not_found (vpa_reconciler_of b) r)
  unfolding ignore_not_found
  ignore_not_found-IsGone (ok _) = Keeps-pure tt tt
  ignore_not_found-IsGone (err e) =
      Keeps-if (is_not_found e) _ _ (λ _. Keeps-pure tt tt) (λ _. Keeps-throw e)

  delete_managed_vpa-IsGone : (w : W) → Ends IsGone (delete_managed_vpa (vpa_reconciler_of b) x) w
  unfolding delete_managed_vpa ignore_not_found vpa_reconciler_of
  delete_managed_vpa-IsGone w =
      delete-Ends b stored server.fresh server.complete x (ignore_not_found (vpa_reconciler_of b)) w
        ignore_not_found-IsGone (λ e w' a h. passes-eq-true (is_not_found e) e w' a h)

  counted-IsGone :
      (r : Result (Unit {0}))
      → Keeps IsGone Anything (or_count_error (vpa_reconciler_of b) "delete" r)
  unfolding or_count_error inc_reconcile_errors
  counted-IsGone (ok a) = Keeps-pure tt tt
  counted-IsGone (err e) = Keeps-then _ _ (Keeps-emit _) (λ _. Keeps-throw e)

  -- An error that is counted is an error.
  counted-fails :
      (e : Error) (w : W) (f : Unit {0} → Action W Unit) (a : Unit {0})
      → ((or_count_error (vpa_reconciler_of b) "delete" (err e) >>= f) w).result ≢ ok a
  unfolding or_count_error ◌>>=◌ emit inc_reconcile_errors
  counted-fails e w f a h = cc h

  pub delete_orphan-IsGone : (w : W) → Ends IsGone (delete_orphan (vpa_reconciler_of b) x) w
  unfolding delete_orphan inc_vpa_deleted_orphaned dec_vpa_managed
  delete_orphan-IsGone w = Ends-last IsGone _ _ w (λ _ _.
      Ends-attempt IsGone _ _ _ (delete_managed_vpa-IsGone _)
        (λ r.
          Keeps-then _ _ (counted-IsGone r)
            (λ _. Keeps-then _ _ (Keeps-emit _) (λ _. Keeps-emit _)))
        (λ e w' a h. counted-fails e w' _ a h))

  pub delete_owner_gone-IsGone :
      (owner : Owner) (w : W) → Ends IsGone (delete_owner_gone (vpa_reconciler_of b) x owner) w
  unfolding delete_owner_gone inc_vpa_deleted_owner_gone dec_vpa_managed
  delete_owner_gone-IsGone owner w = Ends-last IsGone _ _ w (λ _ _.
      Ends-attempt IsGone _ _ _ (delete_managed_vpa-IsGone _)
        (λ r.
          Keeps-then _ _ (counted-IsGone r)
            (λ _. Keeps-then _ _ (Keeps-emit _) (λ _. Keeps-emit _)))
        (λ e w' a h. counted-fails e w' _ a h))
