-- ===== src/System/Tests.antt =====
-- The theorems about the controllers on the cluster of System/Memory.
use autovpa.Controller.Workload.{reconcile_deployment, reconcile_request}
use autovpa.Common.{
  String, true, false, some, [], ◌∷◌, ◌≡◌, ◌≢◌, refl, sym, ap, ◌∙◌, eq_iff, index, index?, insert,
  List, any,
}
use autovpa.Kube.{Object, NamespacedName, is_not_found, OwnerReference, ok}
use autovpa.Utils.Names.{render_name_template}
use autovpa.Controller.{deployment_gvk, empty_object}
use autovpa.Controller.Base.Built.{build_desired_vpa-IsDesired}
use autovpa.System.{key_of, vpa_reconciler_of, IsNeverRendered, here, next, deployment}
use autovpa.System.Untouched.{Reach-Still}
use autovpa.Kube.Json.{Value, Members}
use autovpa.Controller.Base.{reconcile_workload}
use autovpa.System.Memory.{stored, listed, without, once}
use autovpa.System.Memory.Server.{
  workload, memory_client, memory_reconciler, memory_client-IsFresh, memory_client-AnswersKey,
  memory_client-IsComplete, memory_client-IsConsistent, memory_client-IsApiServer,
  memory_client-KeepsOwners, render_vpa_name-fixed,
}
use autovpa.System.Owned.{IsOnly, IsOnly-IsOwnerProperty}
use autovpa.System.Again.{reconcile_workload_again_deletes_nothing}
use autovpa.System.Agrees.{reconcile-KeepsReconciled}
use autovpa.Controller.Vpa.{reconcile, supported}
use autovpa.Effect.Counts.{is_delete}
use autovpa.System.Request.{IsServed, reconcile_request-IsServed}
use autovpa.System.Orphans.{IsSafeguarded, reconcile-IsSafeguarded}
use autovpa.Samples.References.{sample-ComparesOwners, sample-MakesReference}
use autovpa.Effect.{◌>>=◌, get, list, delete, patch}
use autovpa.Predicates.{has_non_empty_annotation}
use autovpa.Controller.Base.Delete.{delete_obsolete_managed_vpas}
use autovpa.Controller.Base.Desired.{
  list_managed_vpas, fetch_existing_vpa, DesiredVpaState, build_desired_vpa,
}
use autovpa.Samples.{gold, controller_ref, sample_platform, sample-KeepsContent, sample_keys_differ}

abbrev mine : Object
mine = record empty_object { name = "mine"; namespace = "demo" }

mine-IsNeverRendered : IsNeverRendered (memory_reconciler true) (key_of mine)
mine-IsNeverRendered obj gvk profile desired chosen built same =
    let desires =
      build_desired_vpa-IsDesired (memory_reconciler true) obj gvk (index obj.annotations "profile")
        profile desired built in
    let name = render_vpa_name-fixed _ _ desires.rendered in
    let mixed : ◌≡◌ {A = String} "rendered" "mine" =
      sym name ∙ ap (λ (x : NamespacedName). x.name) same in
    let e : false ≡ true = (eq_iff "rendered" "mine").1 mixed in cc e

unlabelled : index mine.labels "managed" ≢ "true"
unfolding index
unlabelled same = let e : false ≡ true = (eq_iff "" "true").1 same in cc e

Reach-Still_example :
    stored
      (reconcile_deployment
        (memory_reconciler true)
        (record { namespace = "demo"; name = "api" })
        (mine ∷ [])).world
      (key_of mine)
    ≡ some mine
unfolding stored
Reach-Still_example =
    Reach-Still (memory_reconciler true) stored (memory_client-IsFresh true) (key_of mine) mine
      unlabelled sample-KeepsContent (memory_client-AnswersKey true) mine-IsNeverRendered
      (next here (deployment _)) refl

abbrev pub api_key : NamespacedName
api_key = record { namespace = "demo"; name = "api" }

-- A managed VPA of the workload under another name than the rendered one.
abbrev stale : Object
stale = record empty_object {
  name = "stale";
  namespace = "demo";
  labels = some (("managed", "true") ∷ []);
  owner_references = controller_ref (workload api_key) ∷ [];
}

-- The workload has no VPA of the rendered name, an obsolete one, and somebody else has one.
abbrev before : List Object
before = stale ∷ mine ∷ []

abbrev pub own_reference : OwnerReference
own_reference = controller_ref (workload api_key)

reconcile_request-IsServed_example :
    IsServed
      (memory_reconciler true)
      stored
      deployment_gvk
      (λ obj. IsOnly (controller_ref obj))
      api_key
      (ok (workload api_key))
      before
      (reconcile_request (memory_reconciler true) deployment_gvk api_key before).world
unfolding reconcile_workload sample_platform has_non_empty_annotation index? index ◌>>=◌ get list
    delete patch list_managed_vpas is_not_found render_name_template delete_obsolete_managed_vpas
    fetch_existing_vpa memory_client stored listed without once insert reconcile_request
reconcile_request-IsServed_example =
    reconcile_request-IsServed (memory_reconciler true) stored deployment_gvk
      (λ obj. IsOnly (controller_ref obj)) (memory_client-IsApiServer true)
      (λ obj.
        IsOnly-IsOwnerProperty (memory_reconciler true) stored obj deployment_gvk
          (controller_ref obj) sample-ComparesOwners (sample-MakesReference obj)
          (memory_client-KeepsOwners true))
      sample_keys_differ sample-KeepsContent api_key before refl

-- No workload exists, and the VPA of one is still there.
reconcile-IsSafeguarded_example :
    IsSafeguarded
      (memory_reconciler false)
      stored
      (key_of stale)
      before
      (reconcile (vpa_reconciler_of (memory_reconciler false)) (key_of stale) before).world
unfolding index? index ◌>>=◌ get delete is_not_found memory_client stored listed without once insert
    reconcile supported vpa_reconciler_of
reconcile-IsSafeguarded_example =
    reconcile-IsSafeguarded (memory_reconciler false) stored (memory_client-IsApiServer false)
      (key_of stale) before refl

reconcile_workload_again_deletes_nothing_example :
    any is_delete
      (reconcile_workload
        (memory_reconciler true)
        (workload api_key)
        deployment_gvk
        (reconcile_workload
          (memory_reconciler true)
          (workload api_key)
          deployment_gvk
          before).world).calls
    ≡ false
unfolding reconcile_workload sample_platform has_non_empty_annotation index? index ◌>>=◌ get list
    delete patch list_managed_vpas is_not_found render_name_template delete_obsolete_managed_vpas
    fetch_existing_vpa memory_client stored listed without once insert
reconcile_workload_again_deletes_nothing_example =
    reconcile_workload_again_deletes_nothing (memory_reconciler true) stored (workload api_key)
      deployment_gvk
      (record {
        fresh = memory_client-IsFresh true;
        complete = memory_client-IsComplete true;
        consistent = memory_client-IsConsistent true;
        answers = memory_client-AnswersKey true;
      })
      sample-KeepsContent gold refl refl before refl

-- The desired VPA of the workload.
abbrev desired_vpa : DesiredVpaState
desired_vpa = record {
  name = "rendered";
  profile = "gold";
  labels = some (("managed", "true") ∷ ("profile", "gold") ∷ []);
  spec = Value.object (
      Members.member "spec" (Value.text "gold") (
        Members.member "targetRef"
          (Value.object (
            Members.member "apiVersion" (Value.text "apps/v1") (
              Members.member "kind" (Value.text "Deployment")
                (Members.member "name" (Value.text "api") Members.end))))
          Members.end));
}

reconcile-KeepsReconciled_example :
    any is_delete
      (reconcile
        (vpa_reconciler_of (memory_reconciler true))
        (record { namespace = "demo"; name = "rendered" })
        (reconcile_workload
          (memory_reconciler true)
          (workload api_key)
          deployment_gvk
          before).world).calls
    ≡ false
unfolding reconcile_workload sample_platform has_non_empty_annotation index? index ◌>>=◌ get list
    delete patch list_managed_vpas is_not_found render_name_template delete_obsolete_managed_vpas
    fetch_existing_vpa memory_client stored listed without once insert build_desired_vpa supported
reconcile-KeepsReconciled_example =
    reconcile-KeepsReconciled (memory_reconciler true) stored (workload api_key) deployment_gvk
      (memory_client-IsApiServer true) sample_keys_differ sample-KeepsContent sample-ComparesOwners
      own_reference (sample-MakesReference (workload api_key)) refl (memory_client-KeepsOwners true)
      gold before _ desired_vpa refl refl refl refl refl refl
