-- ===== src/Controller/Workload/Tests.antt =====
-- The theorems about the controllers' requests, on the sample cluster.
use autovpa.Common.{◌+◌, ◌≤◌, count_if, true, ◌≡◌, refl, any, index?, index}
use autovpa.Kube.{Object, NamespacedName, ok, is_not_found}
use autovpa.Effect.{◌>>=◌, list, delete, get, patch}
use autovpa.Effect.Counts.{is_patch, is_request}
use autovpa.Effect.Costs.{listed_by, total}
use autovpa.Effect.Emits.{Emits}
use autovpa.Metrics.Registry.{HasItsLabels}
use autovpa.Utils.Names.{render_name_template}
use autovpa.Controller.{deployment_gvk}
use autovpa.Controller.Base.{reconcile_workload}
use autovpa.Controller.Base.Delete.{delete_obsolete_managed_vpas}
use autovpa.Controller.Base.Desired.{list_managed_vpas, fetch_existing_vpa}
use autovpa.Controller.Requests.{requests_bounded}
use autovpa.Controller.Labels.{reconcile_request-HasItsLabels}
use autovpa.Controller.Vpa
use autovpa.Controller.Vpa.{VpaReconciler}
use autovpa.Controller.Vpa.Labels.{reconcile-HasItsLabels}
use autovpa.Controller.Workload.{reconcile_request}
use autovpa.Controller.Workload.OptedIn.{AsksForVpa, reconcile_request-AsksForVpa}
use autovpa.Samples.{
  Cluster, cluster_client, sample_meta, sample_platform, sample_reconciler, sample_cluster,
}

abbrev api_request : NamespacedName
api_request = record { namespace = "demo"; name = "api" }

request_patches :
    any is_patch
      (reconcile_request sample_reconciler deployment_gvk api_request sample_cluster).calls
    ≡ true
unfolding reconcile_request reconcile_workload cluster_client sample_platform index? ◌>>=◌
    render_name_template delete_obsolete_managed_vpas list_managed_vpas list index delete
    fetch_existing_vpa get is_not_found patch
request_patches = refl

reconcile_request-AsksForVpa_example :
    (workload : Object) × ((sample_reconciler.kube_client.get deployment_gvk api_request
        sample_cluster).0
      ≡ ok workload)
    × AsksForVpa sample_reconciler deployment_gvk workload
reconcile_request-AsksForVpa_example =
    reconcile_request-AsksForVpa sample_reconciler deployment_gvk api_request sample_cluster
      request_patches

reconcile_request-HasItsLabels_example :
    Emits HasItsLabels (reconcile_request sample_reconciler deployment_gvk api_request)
reconcile_request-HasItsLabels_example =
    reconcile_request-HasItsLabels sample_reconciler deployment_gvk api_request

abbrev vpa_reconciler : VpaReconciler Cluster
vpa_reconciler = record { kube_client = cluster_client; meta = sample_meta }

reconcile-HasItsLabels_example : Emits HasItsLabels (Vpa.reconcile vpa_reconciler api_request)
reconcile-HasItsLabels_example = reconcile-HasItsLabels vpa_reconciler api_request

requests_bounded_example :
    (count_if is_request
        (reconcile_request sample_reconciler deployment_gvk api_request sample_cluster).calls
      ≤ 4
        + total listed_by
            (reconcile_request sample_reconciler deployment_gvk api_request sample_cluster).calls)
    × (count_if is_request (Vpa.reconcile vpa_reconciler api_request sample_cluster).calls ≤ 3)
requests_bounded_example =
    requests_bounded sample_reconciler vpa_reconciler deployment_gvk api_request sample_cluster
