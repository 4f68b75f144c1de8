-- ===== src/Controller/Workload.antt =====
-- internal/controller/{deployment,statefulset,daemonset}_reconciler.go: `Reconcile` of the three
-- workload controllers, which are one function at three kinds.
pub mod OptedIn
mod Tests
use Prim.Native.String.{◌++◌}
use autovpa.Common.{if◌then◌else◌}
use autovpa.Kube.{Object, GroupVersionKind, NamespacedName, failure, is_not_found, Result, ok, err}
use autovpa.Effect.{Action, throw, attempt, ◌>>=◌, get}
use autovpa.Controller.{empty_object, deployment_gvk, stateful_set_gvk, daemon_set_gvk}
use autovpa.Controller.Base.{reconcile_workload}
use autovpa.Controller.Base.Desired.{BaseReconciler}
use autovpa.Controller.Base.Delete.{delete_managed_vpas_for_gone_workload}

module _ {W : Type 0} (r : BaseReconciler W) (gvk : GroupVersionKind) where
  -- The object that stands for a workload that is gone: only its name is known.
  abbrev pub gone_workload : NamespacedName → Object
  gone_workload req = record empty_object { namespace = req.namespace; name = req.name }

  unfoldable pub reconcile_fetched : NamespacedName → Result Object → Action W Unit
  reconcile_fetched req (ok workload) = reconcile_workload r workload gvk
  reconcile_fetched req (err e) =
      if is_not_found e
      then delete_managed_vpas_for_gone_workload r (gone_workload req) gvk.kind
      else throw (failure ("failed to fetch " ++ gvk.kind))

  unfoldable pub reconcile_request : NamespacedName → Action W Unit
  unfolding reconcile_fetched
  reconcile_request req = do
    fetched ← attempt (get r.kube_client gvk req)
    reconcile_fetched req fetched

module _ {W : Type 0} (r : BaseReconciler W) where
  -- DeploymentReconciler.Reconcile
  unfoldable pub reconcile_deployment : NamespacedName → Action W Unit
  unfolding reconcile_request
  reconcile_deployment = reconcile_request r deployment_gvk

  -- StatefulSetReconciler.Reconcile
  unfoldable pub reconcile_stateful_set : NamespacedName → Action W Unit
  unfolding reconcile_request
  reconcile_stateful_set = reconcile_request r stateful_set_gvk

  -- DaemonSetReconciler.Reconcile
  unfoldable pub reconcile_daemon_set : NamespacedName → Action W Unit
  unfolding reconcile_request
  reconcile_daemon_set = reconcile_request r daemon_set_gvk
