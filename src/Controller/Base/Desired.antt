-- ===== src/Controller/Base/Desired.antt =====
-- internal/controller/base_reconciler.go: the desired VPA, and reading and writing single VPAs.
use autovpa.Common.{String, true, Option, none, some, List, [], Map, insert, if◌then◌else◌}
use autovpa.Kube.{
  Object, unstructured, GroupVersionKind, NamespacedName, wrapped, is_not_found, Result, ok, err,
  Client, Platform,
}
use autovpa.Kube.Json.{Value}
use autovpa.Effect.{Action, pure, throw, lift, attempt, ◌>>=◌, get, list, patch}
use autovpa.Config.{Profile}
use autovpa.Utils.{default_if_zero, merge_maps}
use autovpa.Utils.Names.{TemplateEngine}
use autovpa.Controller.{
  MetaConfig, ProfileConfig, vpa_gvk, vpa_list_gvk, render_vpa_name, new_vpa_object, build_vpa_spec,
}

pub record DesiredVpaState : Type 0 where
  pub name : String
  pub profile : String
  pub labels : Map String
  pub spec : Value

-- The fields Logger, Recorder and Metrics are the calls of an action.
pub record BaseReconciler (W : Type 0) : Type 0 where
  pub kube_client : Client W
  pub platform : Platform
  pub engine : TemplateEngine
  pub meta : MetaConfig
  pub profiles : ProfileConfig

abbrev pub field_manager : String
field_manager = "autovpa"

module _ {W : Type 0} (b : BaseReconciler W) where
  -- The map literal of the operator's labels; of equal keys the later one would win.
  unfoldable pub operator_labels : String → Map String
  operator_labels selected =
      some (insert b.meta.profile_key selected (insert b.meta.managed_label "true" []))

  -- The error of rendering comes before that of the spec.
  abbrev pub desired_state : String → Result String → Result Value → Result DesiredVpaState
  desired_state selected (err e) spec = err e
  desired_state selected (ok vpa_name) (err e) = err e
  desired_state selected (ok vpa_name) (ok spec) = ok (record {
    name = vpa_name;
    profile = selected;
    labels = operator_labels selected;
    spec = spec;
  })

  unfoldable pub build_desired_vpa :
      (obj : Object) → GroupVersionKind → (selected : String) → Profile → Result DesiredVpaState
  unfolding default_if_zero render_vpa_name build_vpa_spec operator_labels
  build_desired_vpa obj target_gvk selected profile =
      let template = default_if_zero profile.name_template b.profiles.name_template in
      desired_state selected
        (render_vpa_name b.engine template (record {
          workload_name = obj.name;
          namespace = obj.namespace;
          kind = target_gvk.kind;
          profile = selected;
        }))
        (build_vpa_spec b.platform profile.spec target_gvk obj.name)

  unfoldable pub found_or_none : Result Object → Action W (Option Object)
  found_or_none (ok vpa) = pure (some vpa)
  found_or_none (err e) = if is_not_found e then pure none else throw e

  unfoldable pub fetch_existing_vpa : NamespacedName → Action W (Option Object)
  unfolding found_or_none
  fetch_existing_vpa key = do r ← attempt (get b.kube_client vpa_gvk key); found_or_none r

  -- An object for the apply with the fields that the operator owns.
  unfoldable pub merge_vpa :
      (existing : Object) → DesiredVpaState → (owner : Object) → Result Object
  unfolding new_vpa_object merge_maps
  merge_vpa existing desired owner =
      b.platform.set_controller_reference owner (record new_vpa_object {
        name = existing.name;
        namespace = existing.namespace;
        labels = merge_maps existing.labels desired.labels;
        body = unstructured desired.spec;
      })

  unfoldable pub apply_vpa : Object → Action W Unit
  apply_vpa vpa =
      patch b.kube_client (record vpa { managed_fields = [] })
        (record { field_manager = field_manager; force = true })

  unfoldable pub create_vpa :
      (owner : Object) → (name : String) → (labels : Map String) → (spec : Value) → Action W Unit
  unfolding new_vpa_object apply_vpa
  create_vpa owner name labels spec = do
    vpa ← lift (
        b.platform.set_controller_reference owner (record new_vpa_object {
          name = name;
          namespace = owner.namespace;
          labels = labels;
          body = unstructured spec;
        }))
    apply_vpa vpa

  unfoldable pub update_vpa : Object → Action W Unit
  unfolding apply_vpa
  update_vpa updated = apply_vpa updated

  unfoldable pub as_listed : Result (List Object) → Action W (List Object)
  as_listed (ok items) = pure items
  as_listed (err e) = throw (wrapped "list managed VPAs" e)

  unfoldable pub list_managed_vpas : (namespace : String) → Action W (List Object)
  unfolding as_listed
  list_managed_vpas namespace = do
    r ← attempt (list b.kube_client vpa_list_gvk namespace b.meta.managed_label "true")
    as_listed r
