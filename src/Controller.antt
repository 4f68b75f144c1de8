-- ===== src/Controller.antt =====
-- internal/controller/types.go and internal/controller/utils.go. The reconcilers are the children.
pub mod Events
pub mod Base
pub mod Workload
pub mod Vpa
pub mod Labels
pub mod Requests
pub mod Setup
mod Tests
use autovpa.Common.{
  String, Bool, true, false, not, ◌||◌, Option, none, some, List, [], Map, index?, maps_equal, ◌==◌,
  if◌then◌else◌,
}
use autovpa.Kube.{
  OwnerReference, Object, typed, unstructured, spec_of, GroupVersionKind, Error, wrapped, Result,
  ok, err, Platform, VpaSpec, TargetRef,
}
use autovpa.Kube.Json.{Value}
use autovpa.Config.{Profile, ProfileSpec}
use autovpa.Utils.Names.{NameTemplateData, TemplateEngine, render_name_template}

pub record MetaConfig : Type 0 where
  pub profile_key : String
  pub managed_label : String

pub record ProfileConfig : Type 0 where
  pub name_template : String
  pub default : String
  pub entries : Map Profile

abbrev pub vpa_gvk : GroupVersionKind
vpa_gvk = record { group = "autoscaling.k8s.io"; version = "v1"; kind = "VerticalPodAutoscaler" }

abbrev pub vpa_list_gvk : GroupVersionKind
vpa_list_gvk = record {
  group = "autoscaling.k8s.io";
  version = "v1";
  kind = "VerticalPodAutoscalerList";
}

-- appsv1.SchemeGroupVersion.WithKind(kind)
abbrev pub deployment_gvk : GroupVersionKind
deployment_gvk = record { group = "apps"; version = "v1"; kind = "Deployment" }

abbrev pub stateful_set_gvk : GroupVersionKind
stateful_set_gvk = record { group = "apps"; version = "v1"; kind = "StatefulSet" }

abbrev pub daemon_set_gvk : GroupVersionKind
daemon_set_gvk = record { group = "apps"; version = "v1"; kind = "DaemonSet" }

-- ownerRefsEqual
unfoldable pub owner_refs_equal : Platform → (a b : List OwnerReference) → Bool
owner_refs_equal platform a b = platform.deep_equal_refs a b

unfoldable pub vpa_needs_update : Platform → (a b : Option Object) → Bool
unfolding owner_refs_equal spec_of
vpa_needs_update platform none none = false
vpa_needs_update platform none (some b) = true
vpa_needs_update platform (some a) none = true
vpa_needs_update platform (some a) (some b) =
    not (platform.deep_equal (spec_of a.body) (spec_of b.body))
    || not (maps_equal a.labels b.labels)
    || not (owner_refs_equal platform a.owner_references b.owner_references)

-- RenderVPAName
unfoldable pub render_vpa_name : TemplateEngine → String → NameTemplateData → Result String
render_vpa_name = render_name_template

-- An empty `Object` map with the kind set; nothing else of it is filled in.
abbrev pub empty_object : Object
empty_object = record {
  name = "";
  namespace = "";
  uid = "";
  labels = none;
  annotations = none;
  owner_references = [];
  deletion_timestamp = none;
  managed_fields = [];
  body = typed;
}

unfoldable pub new_vpa_object : Object
new_vpa_object = record empty_object { body = unstructured Value.null }

abbrev converted : Result Value → Result Value
converted (ok v) = ok v
converted (err e) = err (wrapped "convert VPA spec to unstructured" e)

unfoldable pub build_vpa_spec : Platform → ProfileSpec → GroupVersionKind → String → Result Value
build_vpa_spec platform profile gvk workload_name =
    let target : TargetRef = record {
      api_version = platform.group_version gvk;
      kind = gvk.kind;
      name = workload_name;
    } in
    converted (platform.to_unstructured (record profile { target_ref = some target }))

abbrev or_unknown : Option String → String
or_unknown none = "unknown"
or_unknown (some v) = if v == "" then "unknown" else v

unfoldable pub profile_from_labels : Map String → String → String
profile_from_labels none key = "unknown"
profile_from_labels (some labels) key = or_unknown (index? (some labels) key)
