-- ===== src/System/Obsolete.antt =====
-- The cleanup of obsolete VPAs, by internal/controller/base_reconciler.go, keeps whatever a delete of a
-- VPA keeps that the workload controls and that has another name than the one to keep.
use autovpa.Common.{String, not, true, List, [], ◌∷◌, ◌≡◌, ◌≢◌, All, ◌==◌, eq_iff, arith}
use autovpa.Kube.{Object, Result, ok, err}
use autovpa.Effect.{delete, list}
use autovpa.Effect.Keeps.{
  Keeps, OfResult, Keeps-throw, Anything, Keeps-pure, Keeps-attempt, Keeps-if, Keeps-bind,
  Keeps-then, Keeps-emit, keeps_rules,
}
use autovpa.Controller.{vpa_list_gvk}
use autovpa.Metrics.{inc_vpa_deleted_obsolete, dec_vpa_managed}
use autovpa.Controller.Base.Desired.{BaseReconciler, list_managed_vpas, as_listed}
use autovpa.Controller.Base.Delete.{
  obsolete_deleted, delete_obsolete_one, delete_obsolete_loop, delete_obsolete_managed_vpas,
}

module _ {W : Type 0} (b : BaseReconciler W) (I : W → Type 0) where
  pub list_managed_vpas-Leaves :
      (P : Object → Type 0) (ns : String)
      → Keeps I (All P) (list b.kube_client vpa_list_gvk ns b.meta.managed_label "true")
      → Keeps I (All P) (list_managed_vpas b ns)
  unfolding list_managed_vpas as_listed
  list_managed_vpas-Leaves P ns lists = Keeps-bind _ _ (Keeps-attempt _ lists) as_listed-Leaves
    where
      as_listed-Leaves :
          (r : Result (List Object)) → OfResult (All P) r → Keeps I (All P) (as_listed b r)
      as_listed-Leaves (ok l) q = Keeps-pure l q
      as_listed-Leaves (err e) q = Keeps-throw _

module _ {W : Type 0} (b : BaseReconciler W) (I : W → Type 0) (obj : Object) (kind : String) where
  pub obsolete_deleted-Leaves :
      (vpa : Object) (r : Result (Unit {0})) → Keeps I Anything (obsolete_deleted b obj kind vpa r)
  unfolding obsolete_deleted inc_vpa_deleted_obsolete dec_vpa_managed
  obsolete_deleted-Leaves vpa (err e) = search keeps_rules
  obsolete_deleted-Leaves vpa (ok _) =
      Keeps-then _ _ (Keeps-emit _) (λ _. Keeps-then _ _ (Keeps-emit _) (λ _. Keeps-emit _))

  module _ (keep : String) (P : Object → Type 0)
      (deletes : (x : Object)
        → x.name ≢ keep
        → b.platform.is_controlled_by x obj ≡ true
        → P x
        → Keeps I Anything (delete b.kube_client x)) where
    delete_obsolete_one-Leaves :
        (vpa : Object) → P vpa → Keeps I Anything (delete_obsolete_one b obj kind keep vpa)
    unfolding delete_obsolete_one
    delete_obsolete_one-Leaves vpa p =
        Keeps-if (vpa.name == keep) _ _ (λ _. Keeps-pure tt tt)
          (λ other.
            Keeps-if (not (b.platform.is_controlled_by vpa obj)) _ _ (λ _. Keeps-pure tt tt)
              (λ mine.
                Keeps-then _ (obsolete_deleted b obj kind vpa)
                  (Keeps-attempt _ (
                    deletes vpa (λ same. cc ((eq_iff vpa.name keep).1 same, other)) (ground arith)
                      p))
                  (obsolete_deleted-Leaves vpa)))

    pub delete_obsolete_loop-Leaves :
        (l : List Object) → All P l → Keeps I Anything (delete_obsolete_loop b obj kind keep l)
    unfolding delete_obsolete_loop
    delete_obsolete_loop-Leaves [] all = Keeps-pure tt tt
    delete_obsolete_loop-Leaves (vpa ∷ l) all =
        Keeps-then _ _ (delete_obsolete_one-Leaves vpa all.0)
          (λ _. delete_obsolete_loop-Leaves l all.1)

    pub delete_obsolete_managed_vpas-Leaves :
        Keeps I (All P) (list_managed_vpas b obj.namespace)
        → Keeps I Anything (delete_obsolete_managed_vpas b obj kind keep)
    unfolding delete_obsolete_managed_vpas
    delete_obsolete_managed_vpas-Leaves lists = Keeps-bind _ _ lists delete_obsolete_loop-Leaves
