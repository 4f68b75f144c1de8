-- ===== src/Controller/Base/Tests.antt =====
-- The theorems about writes of a VPA that exists, at the sample cluster.
use autovpa.Common.{
  true, false, none, some, [], ◌∷◌, ◌≡◌, ◌↔◌, refl, any, index?, arith, inl, index, lookup,
}
use autovpa.Kube.{Object, unstructured, spec_of}
use autovpa.Kube.Json.{Value, Members}
use autovpa.Effect.Counts.{is_patch, is_gauge}
use autovpa.Predicates.{has_non_empty_annotation}
use autovpa.Controller.{deployment_gvk, empty_object}
use autovpa.Controller.Base.{apply_desired, reconcile_workload}
use autovpa.Controller.Base.Desired.{DesiredVpaState, operator_labels, merge_vpa, build_desired_vpa}
use autovpa.Utils.Names.{render_name_template}
use autovpa.Controller.Base.Balance.{
  Balances, delete_obsolete_managed_vpas-Balances, opted_out_or_gone-Balances,
}
use autovpa.Controller.Base.Delete.{
  delete_obsolete_managed_vpas, delete_managed_vpas_for_opt_out,
  delete_managed_vpas_for_gone_workload,
}
use autovpa.Controller.Base.Gauge.{existing_keeps_gauge}
use autovpa.Controller.Base.Drift.{
  IsSettled, apply_desired-IsSettled_iff, several_owners_always_applied,
}
use autovpa.Controller.Base.Settled.{
  IsSettledCluster, only_reads, reconcile_workload-IsSettledCluster,
}
use autovpa.Samples.{
  Cluster, cluster_client, sample_platform, sample_reconciler, api, gold, controller_ref,
  sample-KeepsContent, sample_keys_differ, sample-CountsOwners,
}

abbrev desired_api : DesiredVpaState
desired_api = record {
  name = "api-gold-vpa";
  profile = "gold";
  labels = operator_labels sample_reconciler "gold";
  spec = Value.null;
}

-- Settled, but for a label of the user's, which stays.
abbrev settled_vpa : Object
settled_vpa = record empty_object {
  name = "api-gold-vpa";
  namespace = "demo";
  labels = some (("team", "a") ∷ ("managed", "true") ∷ ("profile", "gold") ∷ []);
  owner_references = controller_ref api ∷ [];
  body = unstructured Value.null;
}

apply_desired-IsSettled_iff_example :
    (any is_patch
        (apply_desired sample_reconciler api deployment_gvk desired_api
          (some settled_vpa)
          (record { vpas = settled_vpa ∷ []; workloads = api ∷ [] })).calls
      ≡ false)
    ↔ IsSettled sample_reconciler api deployment_gvk desired_api settled_vpa settled_vpa
unfolding merge_vpa sample_platform lookup operator_labels
apply_desired-IsSettled_iff_example =
    apply_desired-IsSettled_iff sample_reconciler api deployment_gvk sample_keys_differ
      sample-KeepsContent desired_api settled_vpa settled_vpa refl (refl, (refl, (refl, tt))) refl
      (record { vpas = settled_vpa ∷ []; workloads = api ∷ [] })

-- The same VPA with a second owner reference.
abbrev shared_vpa : Object
shared_vpa = record settled_vpa {
  owner_references =
      controller_ref api ∷ record (controller_ref api) { uid = "u2"; controller = none } ∷ [];
}

several_owners_always_applied_example :
    any is_patch
      (apply_desired sample_reconciler api deployment_gvk desired_api
        (some shared_vpa)
        (record { vpas = shared_vpa ∷ []; workloads = api ∷ [] })).calls
    ≡ true
unfolding merge_vpa sample_platform lookup operator_labels
several_owners_always_applied_example =
    several_owners_always_applied sample_reconciler api deployment_gvk sample-CountsOwners
      desired_api shared_vpa settled_vpa (record { vpas = shared_vpa ∷ []; workloads = api ∷ [] })
      refl (omega arith)

-- What the profile gold gives for the workload.
abbrev gold_api : DesiredVpaState
gold_api = record desired_api {
  spec = Value.object (
      Members.member "spec" (Value.text "gold") (
        Members.member "targetRef"
          (Value.object (
            Members.member "apiVersion" (Value.text "apps/v1") (
              Members.member "kind" (Value.text "Deployment")
                (Members.member "name" (Value.text "api") Members.end))))
          Members.end));
}

abbrev gold_vpa : Object
gold_vpa = record settled_vpa { body = unstructured gold_api.spec }

abbrev settled_cluster : Cluster
settled_cluster = record { vpas = gold_vpa ∷ []; workloads = api ∷ [] }

cluster-IsSettledCluster :
    IsSettledCluster sample_reconciler api deployment_gvk settled_cluster gold_api
      (gold_vpa ∷ [])
      gold_vpa
      gold_vpa
unfolding cluster_client merge_vpa sample_platform lookup operator_labels index spec_of
cluster-IsSettledCluster = record {
  listed = refl;
  others = (inl refl, tt);
  found = refl;
  labels-IsMap = (refl, (refl, (refl, tt)));
  merged = refl;
  settled = record { same_spec = refl; managed = refl; profiled = refl; owned = refl };
}

reconcile_workload-IsSettledCluster_example :
    reconcile_workload sample_reconciler api deployment_gvk settled_cluster
    ≡ only_reads sample_reconciler api deployment_gvk settled_cluster gold_api
        (gold_vpa ∷ [])
        gold_vpa
unfolding has_non_empty_annotation lookup build_desired_vpa operator_labels sample_platform index?
    index render_name_template
reconcile_workload-IsSettledCluster_example =
    reconcile_workload-IsSettledCluster sample_reconciler api deployment_gvk sample_keys_differ
      sample-KeepsContent settled_cluster gold gold_api (gold_vpa ∷ []) gold_vpa gold_vpa
      cluster-IsSettledCluster refl refl refl

-- The same name under another profile.
abbrev silver_vpa : Object
silver_vpa = record settled_vpa { labels = some (("managed", "true") ∷ ("profile", "silver") ∷ []) }

existing_keeps_gauge_example :
    any is_gauge
      (apply_desired sample_reconciler api deployment_gvk gold_api
        (some silver_vpa)
        settled_cluster).calls
    ≡ false
existing_keeps_gauge_example =
    existing_keeps_gauge sample_reconciler api deployment_gvk gold_api silver_vpa settled_cluster

delete_obsolete_managed_vpas-Balances_example :
    Balances (delete_obsolete_managed_vpas sample_reconciler api "Deployment" "api-gold-vpa")
delete_obsolete_managed_vpas-Balances_example =
    delete_obsolete_managed_vpas-Balances sample_reconciler api "Deployment" "api-gold-vpa"

opted_out_or_gone-Balances_example :
    Balances (delete_managed_vpas_for_opt_out sample_reconciler api "Deployment")
    × Balances (delete_managed_vpas_for_gone_workload sample_reconciler api "Deployment")
opted_out_or_gone-Balances_example = opted_out_or_gone-Balances sample_reconciler api "Deployment"
