-- ===== src/System/Untouched.antt =====
-- What the reconcilers of internal/controller do to a VPA without the managed label: nothing, as
-- long as no workload renders its name.
use autovpa.Common.{Option, some, ◌≡◌, ◌≢◌, ◌∙◌, index}
use autovpa.Kube.{Object, GroupVersionKind, NamespacedName, Result, ok, err}
use autovpa.Kube.Laws.{KeepsContent, AnswersKey}
use autovpa.Effect.{Action}
use autovpa.Effect.Keeps.{Anything, Keeps, Keeps-attempt, Keeps-then, keeps_rules}
use autovpa.Controller.{vpa_gvk, deployment_gvk, stateful_set_gvk, daemon_set_gvk}
use autovpa.Controller.Base.Desired.{BaseReconciler}
use autovpa.Controller.Base.{reconcile_workload}
use autovpa.Controller.Workload.{
  gone_workload, reconcile_fetched, reconcile_request, reconcile_deployment, reconcile_stateful_set,
  reconcile_daemon_set,
}
use autovpa.System.{
  key_of, IsFresh, Step, Reach, IsNeverRendered, vpa_reconciler_of, deployment, stateful_set,
  daemon_set, vpa, elsewhere, here, next,
}
use autovpa.System.Calls.{Still, get-Still, delete-Still, list-Still, patch-Still}
use autovpa.System.WorkloadCalls.{reconcile_workload-Leaves}
use autovpa.System.Unmanaged.{reconcile-Leaves}
use autovpa.System.Deletions.{for_gone_workload-Leaves}

module _ {W : Type 0} (b : BaseReconciler W) (stored : W → NamespacedName → Option Object)
    (fresh : IsFresh b.kube_client stored) (k : NamespacedName) (o : Object)
    (unmanaged : index o.labels b.meta.managed_label ≢ "true") (content : KeepsContent b.platform)
    (answers : AnswersKey b.kube_client) where
  abbrev LeavesIt : {A : Type 0} → Action W A → Type 0
  LeavesIt m = Keeps (Still b.kube_client stored fresh k o) Anything m

  module _ (never : IsNeverRendered b k) (gvk : GroupVersionKind) where
    workload-Leaves : (obj : Object) → LeavesIt (reconcile_workload b obj gvk)
    workload-Leaves obj =
        reconcile_workload-Leaves b k (Still b.kube_client stored fresh k o)
          (patch-Still b.kube_client stored fresh k o)
          (λ key w h. fresh.get_keeps vpa_gvk key k w ∙ h) content answers obj gvk
          (λ x. key_of x ≢ k)
          (list-Still b.kube_client stored fresh k o b.meta.managed_label unmanaged obj.namespace)
          (λ x _. delete-Still b.kube_client stored fresh k o x)
          (λ x _. delete-Still b.kube_client stored fresh k o x) (never obj gvk)

    reconcile_fetched-Leaves :
        (req : NamespacedName) (r : Result Object) → LeavesIt (reconcile_fetched b gvk req r)
    unfolding reconcile_fetched
    reconcile_fetched-Leaves req (ok workload) = workload-Leaves workload
    reconcile_fetched-Leaves req (err e) =
        let gone =
          for_gone_workload-Leaves b (Still b.kube_client stored fresh k o)
            (gone_workload b gvk req) gvk.kind (λ x. key_of x ≢ k)
            (λ x _. delete-Still b.kube_client stored fresh k o x)
            (list-Still b.kube_client stored fresh k o b.meta.managed_label unmanaged
              req.namespace) in
        search (keeps_rules, gone)

    reconcile_request-Leaves : (req : NamespacedName) → LeavesIt (reconcile_request b gvk req)
    unfolding reconcile_request
    reconcile_request-Leaves req =
        Keeps-then _ _ (Keeps-attempt _ (get-Still b.kube_client stored fresh k o gvk req))
          (reconcile_fetched-Leaves req)

  module _ (never : IsNeverRendered b k) where
    Step-Still : {w w' : W} → Step b k stored w w' → stored w k ≡ some o → stored w' k ≡ some o
    unfolding reconcile_deployment reconcile_stateful_set reconcile_daemon_set vpa_reconciler_of
    Step-Still (deployment req) h = (reconcile_request-Leaves never deployment_gvk req).state _ h
    Step-Still (stateful_set req) h =
        (reconcile_request-Leaves never stateful_set_gvk req).state _ h
    Step-Still (daemon_set req) h = (reconcile_request-Leaves never daemon_set_gvk req).state _ h
    Step-Still (vpa req) h =
        (reconcile-Leaves (vpa_reconciler_of b) stored fresh k o unmanaged answers req).state _ h
    Step-Still (elsewhere w' same) h = same ∙ h

    -- A VPA without the managed label, whose key is rendered for no workload from the profile that
    -- its annotation names, is never changed or deleted: it is the same after any sequence of
    -- reconciliations of the four controllers, for any requests and with any outcome, and of steps
    -- of others that leave it alone. The API server must be read without delay, Get must answer with
    -- the object asked for, and SetControllerReference must keep what is not an owner reference.
    pub Reach-Still :
        {w w' : W} → Reach b k stored w w' → stored w k ≡ some o → stored w' k ≡ some o
    Reach-Still here h = h
    Reach-Still (next r s) h = Step-Still s (Reach-Still r h)
