-- ===== src/Samples.antt =====
-- A small cluster in memory and a reconciler on it: the input of the witnesses, and an
-- instance of what the theorems assume of the libraries.
pub mod References
use Prim.Native.String.{◌++◌}
use autovpa.Common.{
  String, Bool, true, false, ◌&&◌, Option, none, some, List, [], ◌∷◌, ◌==◌, eq_iff, arith, ◌≡◌, ◌≢◌,
  refl, ◌↔◌, index, length, ap, ℕ, if◌then◌else◌,
}
use autovpa.Kube.{
  OwnerReference, Object, unstructured, NamespacedName, not_found, Result, ok, err, Client,
  TargetRef, Platform,
}
use autovpa.Kube.Json.{Value, Members, value_equal}
use autovpa.Kube.Laws.{KeepsContent, AnswersKey, CountsOwners, ComparesOwners, MakesReference}
use autovpa.Config.{Profile}
use autovpa.Utils.Names.{TemplateEngine}
use autovpa.Predicates.{first_controller, same_ref, same_flag}
use autovpa.Controller.{MetaConfig, ProfileConfig, empty_object, deployment_gvk}
use autovpa.Controller.Base.Desired.{BaseReconciler}

pub record Cluster : Type 0 where
  pub vpas : List Object
  pub workloads : List Object

abbrev pub has_key : NamespacedName → Object → Bool
has_key key o = (o.name == key.name) && (o.namespace == key.namespace)

abbrev pub key_of : Object → NamespacedName
key_of o = record { namespace = o.namespace; name = o.name }

unfoldable pub find : NamespacedName → List Object → Result Object
find key [] = err not_found
find key (o ∷ os) = let rest = find key os in if has_key key o then ok o else rest

unfoldable pub matching : (ns key value : String) → List Object → List Object
matching ns key value [] = []
matching ns key value (o ∷ os) =
    let rest = matching ns key value os in
    if (o.namespace == ns) && (index o.labels key == value) then o ∷ rest else rest

unfoldable pub without : NamespacedName → List Object → List Object
without key [] = []
without key (o ∷ os) = let rest = without key os in if has_key key o then rest else o ∷ rest

abbrev deleted : NamespacedName → Cluster → Result Object → Result (Unit {0}) × Cluster
deleted key c (err e) = (err e, c)
deleted key c (ok _) = (ok tt, record c { vpas = without key c.vpas })

unfoldable pub cluster_client : Client Cluster
unfolding find matching without
cluster_client = record {
  get = λ gvk key c.
      (find key (if gvk.kind == "VerticalPodAutoscaler" then c.vpas else c.workloads), c);
  list = λ gvk ns key value c. (ok (matching ns key value c.vpas), c);
  delete = λ o c. deleted (key_of o) c (find (key_of o) c.vpas);
  patch = λ o options c. (ok tt, record c { vpas = o ∷ without (key_of o) c.vpas });
}

abbrev pub controller_ref : Object → OwnerReference
controller_ref owner = record {
  api_version = "apps/v1";
  kind = "Deployment";
  name = owner.name;
  uid = owner.uid;
  controller = some true;
  block_owner_deletion = some true;
}

abbrev controls : Object → Option OwnerReference → Bool
controls owner none = false
controls owner (some ref) = ref.uid == owner.uid

abbrev same_refs : List OwnerReference → List OwnerReference → Bool
same_refs [] [] = true
same_refs (a ∷ as') (b ∷ bs) = same_ref (some a) (some b) && same_refs as' bs
same_refs _ _ = false

abbrev target_value : Option TargetRef → Value
target_value none = Value.null
target_value (some target) = Value.object (
    Members.member "apiVersion" (Value.text target.api_version) (
      Members.member "kind" (Value.text target.kind)
        (Members.member "name" (Value.text target.name) Members.end)))

unfoldable pub sample_platform : Platform
unfolding value_equal same_ref first_controller
sample_platform = record {
  deep_equal = value_equal;
  deep_equal_refs = same_refs;
  to_unstructured = λ spec. ok (
      Value.object (
        Members.member "spec" spec.fields
          (Members.member "targetRef" (target_value spec.target_ref) Members.end)));
  group_version = λ gvk. gvk.group ++ "/" ++ gvk.version;
  set_controller_reference =
      λ owner o. ok (record o { owner_references = controller_ref owner ∷ o.owner_references });
  is_controlled_by = λ o owner. controls owner (first_controller o.owner_references);
}

abbrev pub sample_engine : TemplateEngine
sample_engine = record {
  lower = λ c. c;
  parse = λ funcs text. ok (λ data'. ok (data'.workload_name ++ "-" ++ data'.profile ++ "-vpa"));
  is_dns1123_subdomain = λ name. [];
}

abbrev pub sample_meta : MetaConfig
sample_meta = record { profile_key = "profile"; managed_label = "managed" }

abbrev pub gold : Profile
gold = record {
  name_template = "";
  spec = record { target_ref = none; fields = Value.text "gold" };
}

abbrev pub sample_profiles : ProfileConfig
sample_profiles = record {
  name_template = "{{ .WorkloadName }}-{{ .Profile }}-vpa";
  default = "gold";
  entries = some (("gold", gold) ∷ []);
}

abbrev pub sample_reconciler : BaseReconciler Cluster
sample_reconciler = record {
  kube_client = cluster_client;
  platform = sample_platform;
  engine = sample_engine;
  meta = sample_meta;
  profiles = sample_profiles;
}

-- A workload that asks for the profile gold.
abbrev pub api : Object
api = record empty_object {
  name = "api";
  namespace = "demo";
  uid = "u1";
  annotations = some (("profile", "gold") ∷ []);
}

-- A managed VPA that the workload controls, under a name that it no longer has.
abbrev pub stale_vpa : Object
stale_vpa = record empty_object {
  name = "api-silver-vpa";
  namespace = "demo";
  labels = some (("managed", "true") ∷ ("profile", "silver") ∷ []);
  owner_references = controller_ref api ∷ [];
  body = unstructured Value.null;
}

abbrev pub sample_cluster : Cluster
sample_cluster = record { vpas = stale_vpa ∷ []; workloads = api ∷ [] }

find-has_key :
    (key : NamespacedName) (os : List Object) (o : Object)
    → find key os ≡ ok o
    → (o.name ≡ key.name) × (o.namespace ≡ key.namespace)
unfolding find
find-has_key key [] o h = ground arith
find-has_key key (p ∷ os) o h =
    ground (arith, find-has_key key os o, eq_iff p.name key.name, eq_iff p.namespace key.namespace)

pub sample-AnswersKey : AnswersKey cluster_client
unfolding cluster_client
sample-AnswersKey = record { same_key = λ gvk key c o h. find-has_key key _ o h }

pub sample-KeepsContent : KeepsContent sample_platform
unfolding sample_platform
sample-KeepsContent = record {
  same_content = λ owner o result h. (ground arith, ground arith, ground arith, ground arith);
}

same_refs-length : (a b : List OwnerReference) → same_refs a b ≡ true → length a ≡ length b
same_refs-length [] [] h = refl
same_refs-length [] (y ∷ b) h = ground arith
same_refs-length (x ∷ a) [] h = ground arith
same_refs-length (x ∷ a) (y ∷ b) h = ground (arith, same_refs-length a b)

pub sample-CountsOwners : CountsOwners sample_platform
unfolding sample_platform
sample-CountsOwners = record {
  one_owner = λ owner o result none_yet h. ground (
    arith,
    none_yet,
    ap {B = ℕ} (λ r. elim r [ ok x ↦ length x.owner_references | err _ ↦ 0 ]) h,
  );
  same_length = same_refs-length;
}

pub sample_keys_differ : sample_meta.managed_label ≢ sample_meta.profile_key
sample_keys_differ = ground (arith, eq_iff "managed" "profile")
