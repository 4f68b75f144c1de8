-- ===== src/System/Deletions.antt =====
-- The deletions of internal/controller/base_reconciler.go keep whatever a delete of a listed VPA keeps.
use autovpa.Controller.Base.Safety.{refers_to}
use autovpa.Common.{true, any, not, ◌||◌, ◌==◌, ◌≡◌, ap, arith, String, some, List, [], ◌∷◌, All}
use autovpa.Kube.{Object, OwnerReference, Result, ok, err}
use autovpa.Effect.{Action, list, delete}
use autovpa.Controller.{vpa_list_gvk}
use autovpa.Effect.Keeps.{
  Keeps, Anything, Keeps-pure, Keeps-attempt, Keeps-if, Keeps-bind, Keeps-then, Keeps-emit,
  keeps_rules,
}
use autovpa.Metrics.{inc_vpa_deleted_opt_out, inc_vpa_deleted_workload_gone, dec_vpa_managed}
use autovpa.System.Obsolete.{list_managed_vpas-Leaves}
use autovpa.Controller.Base.Desired.{BaseReconciler}
use autovpa.Controller.Base.Delete.{
  managed_deleted, delete_managed_ref, delete_managed_refs, delete_managed_loop,
  delete_managed_vpas, count_opt_out, count_gone, delete_managed_vpas_for_opt_out,
  delete_managed_vpas_for_gone_workload,
}

module _ {W : Type 0} (b : BaseReconciler W) (I : W → Type 0) (obj : Object) (kind : String) where
  -- An action that keeps what holds of the cluster.
  abbrev pub Leaves : {A : Type 0} → Action W A → Type 0
  Leaves m = Keeps I Anything m

  pub managed_deleted-Leaves :
      (on_delete : String → String → Action W Unit)
      (counts : (ns profile : String) → Leaves (on_delete ns profile)) (vpa : Object)
      (r : Result (Unit {0}))
      → Leaves (managed_deleted b obj kind (some on_delete) vpa r)
  unfolding managed_deleted
  managed_deleted-Leaves on_delete counts vpa (err e) = search keeps_rules
  managed_deleted-Leaves on_delete counts vpa (ok _) =
      Keeps-then _ _ (counts _ _) (λ _. Keeps-emit _)

  module _ (P : Object → Type 0)
      (deletes : (x : Object)
        → any (refers_to kind obj.name) x.owner_references ≡ true
        → P x
        → Keeps I Anything (delete b.kube_client x)) where
    module _ (on_delete : String → String → Action W Unit)
        (counts : (ns profile : String) → Leaves (on_delete ns profile)) where
      pub delete_managed_refs-Leaves :
          (vpa : Object) (refs : List OwnerReference)
          → P vpa
          → (any (refers_to kind obj.name) refs ≡ true
              → any (refers_to kind obj.name) vpa.owner_references ≡ true)
          → Leaves (delete_managed_refs b obj kind (some on_delete) vpa refs)
      unfolding delete_managed_refs delete_managed_ref
      delete_managed_refs-Leaves vpa [] other may = Keeps-pure tt tt
      delete_managed_refs-Leaves vpa (ref ∷ refs) other may =
          Keeps-then _ _
            (Keeps-if (not (ref.kind == kind) || not (ref.name == obj.name)) _ _
              (λ _. Keeps-pure tt tt)
              (λ names.
                Keeps-then _ _
                  (Keeps-attempt _ (deletes vpa (may (ground (arith, ap not names))) other))
                  (managed_deleted-Leaves on_delete counts vpa)))
            (λ _. delete_managed_refs-Leaves vpa refs other (λ later. may (ground arith)))

      pub delete_managed_loop-Leaves :
          (l : List Object) → All P l → Leaves (delete_managed_loop b obj kind (some on_delete) l)
      unfolding delete_managed_loop
      delete_managed_loop-Leaves [] all = Keeps-pure tt tt
      delete_managed_loop-Leaves (vpa ∷ l) all =
          Keeps-then _ _ (delete_managed_refs-Leaves vpa vpa.owner_references all.0 (λ h. h))
            (λ _. delete_managed_loop-Leaves l all.1)

    module _
        (lists : Keeps I
          (All P)
          (list b.kube_client vpa_list_gvk obj.namespace b.meta.managed_label "true")) where
      pub delete_managed_vpas-Leaves :
          (on_delete : String → String → Action W Unit)
          → ((ns profile : String) → Leaves (on_delete ns profile))
          → Leaves (delete_managed_vpas b obj kind (some on_delete))
      unfolding delete_managed_vpas
      delete_managed_vpas-Leaves on_delete counts =
          Keeps-bind _ _ (list_managed_vpas-Leaves b I P obj.namespace lists)
            (delete_managed_loop-Leaves on_delete counts)

      pub for_opt_out-Leaves : Leaves (delete_managed_vpas_for_opt_out b obj kind)
      unfolding delete_managed_vpas_for_opt_out count_opt_out inc_vpa_deleted_opt_out
          dec_vpa_managed
      for_opt_out-Leaves =
          delete_managed_vpas-Leaves (count_opt_out b obj kind)
            (λ ns p. Keeps-then _ _ (Keeps-emit _) (λ _. Keeps-emit _))

      pub for_gone_workload-Leaves : Leaves (delete_managed_vpas_for_gone_workload b obj kind)
      unfolding delete_managed_vpas_for_gone_workload count_gone inc_vpa_deleted_workload_gone
          dec_vpa_managed
      for_gone_workload-Leaves =
          delete_managed_vpas-Leaves (count_gone b obj kind)
            (λ ns p. Keeps-then _ _ (Keeps-emit _) (λ _. Keeps-emit _))
