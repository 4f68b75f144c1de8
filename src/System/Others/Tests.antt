-- ===== src/System/Others/Tests.antt =====
-- A theorem about one workload beside the others on the cluster of System/Memory, with names from the
-- default template.
use autovpa.Controller.Workload.{reconcile_request}
use autovpa.Common.{
  String, true, false, some, [], ◌∷◌, ◌≡◌, refl, sym, ap, ◌∙◌, eq_iff, index, insert, List, arith,
}
use autovpa.Kube.{Object, NamespacedName, ok}
use autovpa.Utils.Names.{NameTemplateData, render_name_template}
use Prim.Native.String.{◌++◌}
use mathlib.Core.Path.{subst}
use autovpa.Controller.{deployment_gvk, empty_object, render_vpa_name}
use autovpa.Controller.Base.Built.{build_desired_vpa-IsDesired}
use autovpa.System.{key_of, vpa_reconciler_of}
use autovpa.System.Memory.{stored, once}
use autovpa.System.Memory.Server.{
  workload, memory_client, memory_reconciler, memory_client-IsApiServer,
}
use autovpa.System.Tests.{api_key, own_reference}
use autovpa.System.Others.{IsOther, IsApart, IsElsewhere}
use autovpa.System.Others
use autovpa.System.Others.Kept.{OtherReach-Kept}
use autovpa.Effect.Runs.{ok-injective}
use autovpa.Controller.Vpa.{reconcile, supported}
use autovpa.Samples.References.{sample-MakesReference}
use autovpa.Controller.Base.Desired.{BaseReconciler}
use autovpa.Samples.{sample_engine, sample_platform, sample-KeepsContent}

-- Somebody asks for another workload, and the VPA controller for the VPA of the first, with names from
-- the default template.
abbrev default_reconciler : BaseReconciler (List Object)
default_reconciler = record (memory_reconciler true) { engine = sample_engine }

abbrev web_key : NamespacedName
web_key = record { namespace = "demo"; name = "web" }

-- The VPA that the operator makes for the workload.
abbrev api_vpa : Object
api_vpa = record empty_object {
  name = "api-gold-vpa";
  namespace = "demo";
  labels = some (("managed", "true") ∷ ("profile", "gold") ∷ []);
  owner_references = own_reference ∷ [];
}

-- The cluster in memory shows the labels in the opposite order.
abbrev one_vpa : List Object
one_vpa = record api_vpa { labels = some (("profile", "gold") ∷ ("managed", "true") ∷ []) } ∷ []

render_vpa_name-default :
    (template : String) (d : NameTemplateData) {name : String}
    → render_vpa_name sample_engine template d ≡ ok name
    → name ≡ d.workload_name ++ ("-" ++ (d.profile ++ "-vpa"))
unfolding render_vpa_name render_name_template
render_vpa_name-default template d h = ground (arith, h)

web-IsOther :
    IsOther default_reconciler stored api_vpa
      (workload api_key)
      deployment_gvk
      deployment_gvk
      web_key
web-IsOther same =
    let mixed : ◌≡◌ {A = String} "web" "api" =
      ap (λ (x : String × NamespacedName). x.1.name) same in
    let e : false ≡ true = (eq_iff "web" "api").1 mixed in cc e

web-IsApart :
    IsApart default_reconciler stored api_vpa
      (workload api_key)
      deployment_gvk
      deployment_gvk
      web_key
      one_vpa
unfolding memory_client sample_platform index
web-IsApart obj got =
    let same : workload web_key ≡ obj = ok-injective got in
    subst
      (λ (x : Object).
        (default_reconciler.platform.is_controlled_by api_vpa x ≡ false)
        × IsElsewhere default_reconciler stored api_vpa (workload api_key) deployment_gvk
            deployment_gvk x)
      same (refl, web_elsewhere)
  where
    web_elsewhere :
        IsElsewhere default_reconciler stored api_vpa
          (workload api_key)
          deployment_gvk
          deployment_gvk
          (workload web_key)
    web_elsewhere profile desired chosen built clash =
        let desires =
          build_desired_vpa-IsDesired default_reconciler (workload web_key) deployment_gvk
            (index (workload web_key).annotations "profile") profile desired built in
        let name = render_vpa_name-default _ _ desires.rendered in
        let mixed : ◌≡◌ {A = String} "web-gold-vpa" "api-gold-vpa" =
          sym name ∙ ap (λ (x : NamespacedName). x.name) clash in
        let e : false ≡ true = (eq_iff "web-gold-vpa" "api-gold-vpa").1 mixed in cc e

OtherReach-Kept_example :
    stored
      (reconcile
        (vpa_reconciler_of default_reconciler)
        (key_of api_vpa)
        (reconcile_request default_reconciler deployment_gvk web_key one_vpa).world).world
      (key_of api_vpa)
    ≡ some api_vpa
unfolding stored memory_client supported sample_platform once insert
OtherReach-Kept_example =
    OtherReach-Kept default_reconciler stored api_vpa (workload api_key) deployment_gvk
      (memory_client-IsApiServer true) sample-KeepsContent own_reference
      (sample-MakesReference (workload api_key)) refl refl refl
      (Others.next
        (Others.next Others.here (Others.workload deployment_gvk web_key web-IsOther web-IsApart))
        (Others.vpa _ refl))
      refl
