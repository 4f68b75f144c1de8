-- ===== src/Controller/Tests.antt =====
-- Runs of the reconcilers on the sample cluster, and the theorems about them at that input.
use autovpa.Common.{true, false, some, [], ◌∷◌, ◌≡◌, refl, any, index?, map, if◌then◌else◌, index}
use autovpa.Kube.{Object, unstructured, is_not_found, ok, NamespacedName}
use autovpa.Kube.Json.{Value}
use autovpa.Effect.{◌>>=◌, list, delete, get, patch}
use autovpa.Effect.Emits.{Emits}
use autovpa.Effect.Counts.{is_delete, succeeded, is_gauge_dec, is_error_count}
use autovpa.Predicates.{has_non_empty_annotation}
use autovpa.Controller.{deployment_gvk, empty_object}
use autovpa.Controller.Base.{reconcile_workload, reconcile_profile, opt_out}
use autovpa.Controller.Base.Desired.{list_managed_vpas, fetch_existing_vpa}
use autovpa.Utils.Names.{render_name_template}
use autovpa.Controller.Base.Delete.{
  delete_obsolete_managed_vpas, delete_managed_vpas_for_opt_out,
  delete_managed_vpas_for_gone_workload,
}
use autovpa.Controller.Base.Safety.{
  IsCleanup, IsObsolete, NamesOwner, delete_obsolete_managed_vpas-Emits,
  delete_managed_vpas-NamesOwner,
}
use autovpa.Controller.Base.Writes.{WritesAnnotated, reconcile_workload-WritesAnnotated}
use autovpa.Controller.Base.OptIn.{reconcile_workload_lem}
use autovpa.Controller.Base.DefaultProfile.{default_profile_unused}
use autovpa.Controller.Vpa
use autovpa.Controller.Vpa.{VpaReconciler, delete_orphan}
use autovpa.Controller.Vpa.Decision.{is_delete-reconcile, is_err}
use autovpa.Controller.Vpa.Errors.{error_is_counted}
use autovpa.Controller.Vpa.Gauge.{leaves_none, gauge_lowered_when_gone}
use autovpa.Controller.Base.Asks.{Asks}
use autovpa.Effect.{emit}
use autovpa.Common.{count_if}
use autovpa.Samples.{
  Cluster, cluster_client, sample_platform, sample_meta, sample_reconciler, api, sample_cluster,
  controller_ref, sample-AnswersKey, sample-KeepsContent, sample_keys_differ,
}

-- The stale VPA is deleted and the one with the rendered name is created.
abbrev api_vpa : Object
api_vpa = record empty_object {
  name = "api-gold-vpa";
  namespace = "demo";
  labels = some (("managed", "true") ∷ ("profile", "gold") ∷ []);
  owner_references = controller_ref api ∷ [];
  body = unstructured Value.null;
}

reconcile_api_runs :
    map
      (λ vpa. vpa.name)
      (reconcile_workload sample_reconciler api deployment_gvk sample_cluster).world.vpas
    ≡ "api-gold-vpa" ∷ []
unfolding reconcile_workload cluster_client sample_platform index? ◌>>=◌ render_name_template
    delete_obsolete_managed_vpas list_managed_vpas list index delete fetch_existing_vpa get
    is_not_found patch
reconcile_api_runs = refl

reconcile_workload-WritesAnnotated_example :
    Emits
      (WritesAnnotated sample_reconciler api deployment_gvk)
      (reconcile_workload sample_reconciler api deployment_gvk)
reconcile_workload-WritesAnnotated_example =
    reconcile_workload-WritesAnnotated sample_reconciler api deployment_gvk sample_keys_differ
      sample-KeepsContent sample-AnswersKey

delete_obsolete_managed_vpas-Emits_example :
    Emits
      (IsCleanup sample_reconciler api (IsObsolete sample_reconciler api "api-gold-vpa"))
      (delete_obsolete_managed_vpas sample_reconciler api "Deployment" "api-gold-vpa")
delete_obsolete_managed_vpas-Emits_example =
    delete_obsolete_managed_vpas-Emits sample_reconciler api "Deployment" "api-gold-vpa"

delete_managed_vpas-NamesOwner_example :
    Emits
      (IsCleanup sample_reconciler api (NamesOwner sample_reconciler api "Deployment"))
      (delete_managed_vpas_for_opt_out sample_reconciler api "Deployment")
    × Emits
        (IsCleanup sample_reconciler api (NamesOwner sample_reconciler api "Deployment"))
        (delete_managed_vpas_for_gone_workload sample_reconciler api "Deployment")
delete_managed_vpas-NamesOwner_example =
    delete_managed_vpas-NamesOwner sample_reconciler api "Deployment"

reconcile_workload_lem_example : reconcile_workload sample_reconciler api deployment_gvk ≡ (
    if has_non_empty_annotation (some api) "profile"
    then reconcile_profile sample_reconciler api deployment_gvk
        (index api.annotations "profile")
        (index? sample_reconciler.profiles.entries (index api.annotations "profile"))
    else opt_out sample_reconciler api deployment_gvk)
reconcile_workload_lem_example = reconcile_workload_lem sample_reconciler api deployment_gvk

abbrev bronze_api : Object
bronze_api = record api { annotations = some (("profile", "bronze") ∷ []) }

default_profile_unused_example :
    reconcile_workload
      (record sample_reconciler {
        profiles = record sample_reconciler.profiles { default = "silver" };
      })
      api
      deployment_gvk
    ≡ reconcile_workload sample_reconciler api deployment_gvk
default_profile_unused_example =
    default_profile_unused sample_reconciler "silver" api deployment_gvk

abbrev vpa_reconciler : VpaReconciler Cluster
vpa_reconciler = record { kube_client = cluster_client; meta = sample_meta }

abbrev stale_request : NamespacedName
stale_request = record { namespace = "demo"; name = "api-silver-vpa" }

is_delete-reconcile_example :
    any is_delete (Vpa.reconcile vpa_reconciler stale_request sample_cluster).calls
    ≡ Vpa.Decision.should_delete vpa_reconciler stale_request sample_cluster
is_delete-reconcile_example = is_delete-reconcile vpa_reconciler stale_request sample_cluster

error_is_counted_example :
    any is_error_count (Vpa.reconcile vpa_reconciler stale_request sample_cluster).calls
    ≡ is_err (Vpa.reconcile vpa_reconciler stale_request sample_cluster).result
error_is_counted_example = error_is_counted vpa_reconciler stale_request sample_cluster

gauge_lowered_when_gone_example :
    count_if is_gauge_dec (Vpa.reconcile vpa_reconciler stale_request sample_cluster).calls
    ≡ count_if leaves_none (Vpa.reconcile vpa_reconciler stale_request sample_cluster).calls
gauge_lowered_when_gone_example =
    gauge_lowered_when_gone vpa_reconciler stale_request sample_cluster

-- The gauge is lowered though the VPA was gone before.
already_gone :
    ((delete_orphan vpa_reconciler api_vpa sample_cluster).result ≡ ok tt)
    × (any succeeded (delete_orphan vpa_reconciler api_vpa sample_cluster).calls ≡ false)
    × (any is_gauge_dec (delete_orphan vpa_reconciler api_vpa sample_cluster).calls ≡ true)
unfolding cluster_client is_not_found delete_orphan delete emit ◌>>=◌
already_gone = (refl, refl, refl)
