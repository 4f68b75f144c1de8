-- ===== src/System/Memory/Server.antt =====
-- A cluster in memory that meets the laws of an API server.
use mathlib.Core.Path.{subst}
use autovpa.Effect.Runs.{ok-injective}
use autovpa.System.Calls.{some-injective}
use autovpa.Common.{
  Bool, In, String, true, false, Option, none, some, List, [], ◌∷◌, ◌≡◌, refl, sym, ap, ◌∙◌, ◌==◌,
  arith, All, All-map, inl, inr, Bool-cases, if◌then◌else◌,
}
use autovpa.Kube.{Object, NamespacedName, Error, not_found, Result, ok, err, Client, spec_of}
use autovpa.Kube.Json.{value_equal_iff}
use autovpa.Kube.Laws.{AnswersKey}
use autovpa.Utils.Names.{NameTemplateData, TemplateEngine, render_name_template}
use autovpa.Controller.{empty_object, render_vpa_name}
use autovpa.Controller.Base.Desired.{BaseReconciler}
use autovpa.System.{key_of, IsFresh, IsComplete, IsConsistent, IsApplying, KeepsOwners, IsApiServer}
use autovpa.System.Memory.{
  stored, without, listed, shown, IsListed, has_key_self, has_key_other, stored-HasKey,
  stored-IsMap, stored-without_self, stored-without_other, stored-without-none, listed-IsListed,
  In-listed, index?-labels_once,
}
use autovpa.Samples.{sample_platform, sample_meta, sample_profiles, sample_engine}

abbrev pub answer : Option Object → Result Object
answer none = err not_found
answer (some x) = ok x

abbrev pub deleted : Option Object → Result (Unit {0})
deleted none = err not_found
deleted (some x) = ok tt

-- Every workload that is asked for exists, or none.
abbrev pub workload : NamespacedName → Object
workload key = record empty_object {
  name = key.name;
  uid = key.name;
  namespace = key.namespace;
  annotations = some (("profile", "gold") ∷ []);
}

abbrev found_workload : Bool → NamespacedName → Result Object
found_workload true key = ok (workload key)
found_workload false key = err not_found

unfoldable pub memory_client : (exist : Bool) → Client (List Object)
unfolding stored listed without
memory_client exist = record {
  get = λ gvk key w. (
    if gvk.kind == "VerticalPodAutoscaler" then answer (stored w key) else found_workload exist key,
    w,
  );
  list = λ gvk ns label value w. (ok (listed ns label value w), w);
  delete = λ o w. (deleted (stored w (key_of o)), without (key_of o) w);
  patch = λ o options w. (ok tt, o ∷ w);
}

module _ (exist : Bool) where
  answer-eq-ok : (r : Option Object) (o : Object) → answer r ≡ ok o → r ≡ some o
  answer-eq-ok none o h = cc h
  answer-eq-ok (some x) o h = ap some (ground (arith, h))

  answer-eq-err : (r : Option Object) (e : Error) → answer r ≡ err e → r ≡ none
  answer-eq-err none e h = refl
  answer-eq-err (some x) e h = cc h

  as_listed :
      (ns label value : String) (w l : List Object)
      → ok (listed ns label value w) ≡ ok l
      → All (IsListed ns label value w) l
  as_listed ns label value w l h =
      subst (All (IsListed ns label value w)) (ok-injective h) (listed-IsListed ns label value w)

  found_workload-HasKey :
      (found : Bool) (key : NamespacedName) (o : Object)
      → found_workload found key ≡ ok o
      → key_of o ≡ key
  found_workload-HasKey true key o h = ap key_of (sym (ok-injective h))
  found_workload-HasKey false key o h = cc h

  pub memory_client-IsFresh : IsFresh (memory_client exist) stored
  unfolding memory_client
  memory_client-IsFresh = record {
    get_keeps = λ gvk key k w. refl;
    get_fresh = λ key w o h. answer-eq-ok (stored w key) o h;
    list_keeps = λ ns label value k w. refl;
    list_fresh =
        λ ns label value w l h. All-map _ _ l (λ o q. (q.0, q.2)) (as_listed ns label value w l h);
    delete_only = λ o k w other. stored-without_other k (key_of o) w other;
    patch_only = λ o options k w other. rw (has_key_other k o other) refl;
  }

  pub memory_client-IsComplete : IsComplete (memory_client exist) stored
  unfolding memory_client
  memory_client-IsComplete = record {
    list_complete = λ ns label value w l o h at inside labelled.
        subst (In o) (ok-injective h) (In-listed ns label value w o (at, inside, labelled));
    delete_done = λ o w h. stored-without_self (key_of o) w;
    delete_missing = λ o w e h missing. stored-without_self (key_of o) w;
    delete_creates_nothing = λ o k w h. stored-without-none k (key_of o) w h;
  }

  pub memory_client-IsConsistent : IsConsistent (memory_client exist) stored
  unfolding memory_client
  memory_client-IsConsistent = record {
    keyed = λ w k o h. stored-HasKey w k o h;
    list_inside =
        λ ns label value w l h. All-map _ _ l (λ o q. q.1) (as_listed ns label value w l h);
    get_missing = λ key w e h missing. answer-eq-err (stored w key) e h;
  }

  pub memory_client-IsApplying : IsApplying (memory_client exist) sample_platform stored
  unfolding memory_client sample_platform spec_of stored
  memory_client-IsApplying = record {
    applied = λ x options w h. (
      shown x,
      rw (has_key_self x) refl,
      (value_equal_iff (spec_of x.body) (spec_of x.body)).1 refl,
      λ k v at. index?-labels_once x.labels k ∙ at,
    );
    labels_once = λ k w y h. stored-IsMap w k y h;
  }

  pub memory_client-KeepsOwners : KeepsOwners (memory_client exist) stored
  unfolding memory_client stored
  memory_client-KeepsOwners = record {
    same_owners = λ x y options w h at.
        let first : stored (x ∷ w) (key_of x) ≡ some (shown x) = rw (has_key_self x) refl in
        ap (λ (o : Object). o.owner_references) (some-injective (sym at ∙ first));
  }

  pub memory_client-AnswersKey : AnswersKey (memory_client exist)
  unfolding memory_client
  memory_client-AnswersKey = record {
    same_key = λ gvk key w o h. elim (Bool-cases (gvk.kind == "VerticalPodAutoscaler")) [
      | inl vpas ↦
          let found =
            stored-HasKey w key o (answer-eq-ok (stored w key) o (ground (arith, h, vpas))) in
          (
            ap (λ (k : NamespacedName). k.name) found,
            ap (λ (k : NamespacedName). k.namespace) found,
          )
      | inr workloads ↦
          let found = found_workload-HasKey exist key o (ground (arith, h, workloads)) in
          (
            ap (λ (k : NamespacedName). k.name) found,
            ap (λ (k : NamespacedName). k.namespace) found,
          )
    ];
  }

  pub memory_client-IsApiServer : IsApiServer (memory_client exist) sample_platform stored
  memory_client-IsApiServer = record {
    fresh = memory_client-IsFresh;
    complete = memory_client-IsComplete;
    consistent = memory_client-IsConsistent;
    applying = memory_client-IsApplying;
    answers = memory_client-AnswersKey;
  }

-- Every name that is rendered is the same.
abbrev pub fixed_engine : TemplateEngine
fixed_engine = record sample_engine { parse = λ funcs text. ok (λ d. ok "rendered") }

pub render_vpa_name-fixed :
    (template : String) (d : NameTemplateData) {name : String}
    → render_vpa_name fixed_engine template d ≡ ok name
    → name ≡ "rendered"
unfolding render_vpa_name render_name_template
render_vpa_name-fixed template d h = ground (arith, h)

abbrev pub memory_reconciler : (exist : Bool) → BaseReconciler (List Object)
memory_reconciler exist = record {
  kube_client = memory_client exist;
  platform = sample_platform;
  engine = fixed_engine;
  meta = sample_meta;
  profiles = sample_profiles;
}
