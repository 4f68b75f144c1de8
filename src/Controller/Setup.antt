-- ===== src/Controller/Setup.antt =====
-- SetupWithManager of the four reconcilers of internal/controller: which events each one watches.
use autovpa.Common.{String, Bool, Option, none, some}
use autovpa.Kube.{GroupVersionKind}
use autovpa.Controller.{
  MetaConfig, ProfileConfig, vpa_gvk, deployment_gvk, stateful_set_gvk, daemon_set_gvk,
}
use autovpa.Predicates.{
  WatchEvent, profile_annotation_lifecycle, managed_vpa_lifecycle, managed_vpa_structural_lifecycle,
}

-- Whether an event enqueues a request; `none` is a panic, as in Predicates.
abbrev pub Predicate : Type 0
Predicate = WatchEvent → Option Bool

-- A controller that is registered with the manager: the name of its event recorder, its settings,
-- and the kinds that it watches with their predicates. The client, the logger and the metrics are
-- the same for all.
pub record Registration : Type 0 where
  pub recorder : String
  -- the VPA reconciler has no profiles
  pub profiles : Option ProfileConfig
  pub meta : MetaConfig
  pub watches : GroupVersionKind
  pub watches_if : Predicate
  -- Owns(vpa)
  pub owns : Option GroupVersionKind
  pub owns_if : Option Predicate

abbrev workload_registration :
    (recorder : String) → GroupVersionKind → ProfileConfig → MetaConfig → Registration
workload_registration recorder gvk profiles meta = record {
  recorder = recorder;
  profiles = some profiles;
  meta = meta;
  watches = gvk;
  watches_if = profile_annotation_lifecycle meta.profile_key;
  owns = some vpa_gvk;
  owns_if = some (managed_vpa_lifecycle meta.managed_label meta.profile_key);
}

unfoldable pub setup_deployment : ProfileConfig → MetaConfig → Registration
setup_deployment = workload_registration "deployment-controller" deployment_gvk

unfoldable pub setup_stateful_set : ProfileConfig → MetaConfig → Registration
setup_stateful_set = workload_registration "statefulset-controller" stateful_set_gvk

unfoldable pub setup_daemon_set : ProfileConfig → MetaConfig → Registration
setup_daemon_set = workload_registration "daemonset-controller" daemon_set_gvk

unfoldable pub setup_vpa : MetaConfig → Registration
setup_vpa meta = record {
  recorder = "vpa-controller";
  profiles = none;
  meta = meta;
  watches = vpa_gvk;
  watches_if = managed_vpa_structural_lifecycle meta.managed_label;
  owns = none;
  owns_if = none;
}
