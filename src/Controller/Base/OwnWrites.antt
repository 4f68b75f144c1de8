-- ===== src/Controller/Base/OwnWrites.antt =====
-- What one write of internal/controller/base_reconciler.go applies.
use autovpa.Common.{String, true, Option, none, some, [], ◌≡◌, ◌≢◌, refl, ◌∙◌, index, inl, ◌⊎◌}
use autovpa.Kube.{Object, GroupVersionKind, ok, PatchOptions, unstructured, spec_of}
use autovpa.Kube.Laws.{KeepsContent, AnswersKey}
use autovpa.Config.{Profile}
use autovpa.Effect.{Call, delete_object, patch_object}
use autovpa.Effect.Emits.{
  Emits, emits_rules, Emits-bind, Emits-bind-lift, Emits-pure, Emits-if, Emits-patch,
}
use autovpa.Utils.{default_if_zero}
use autovpa.Controller.{render_vpa_name, build_vpa_spec}
use autovpa.Controller.Base.Built.{IsDesired, index-operator_labels, index-merged}
use autovpa.Controller.Base.Desired.{
  DesiredVpaState, BaseReconciler, merge_vpa, apply_vpa, create_vpa, update_vpa,
}
use autovpa.Controller.Base.{create_desired, update_existing, apply_desired}
use autovpa.Controller.Base.Safety.{IsCleanup, IsObsolete, NamesOwner}

module _ {W : Type 0} (b : BaseReconciler W) (obj : Object) (gvk : GroupVersionKind) where
  -- A write of the operator: an apply with its field manager, of an object that has the rendered name
  -- in the workload's namespace, the two operator labels and the spec for the workload.
  pub record IsOwnWrite (selected : String) (profile : Profile) (vpa : Object)
      (options : PatchOptions) : Type 0 where
    pub namespaced : vpa.namespace ≡ obj.namespace
    pub rendered :
        render_vpa_name b.engine
          (default_if_zero profile.name_template b.profiles.name_template)
          (record {
            workload_name = obj.name;
            namespace = obj.namespace;
            kind = gvk.kind;
            profile = selected;
          })
        ≡ ok vpa.name
    pub built : build_vpa_spec b.platform profile.spec gvk obj.name ≡ ok (spec_of vpa.body)
    pub managed : index vpa.labels b.meta.managed_label ≡ "true"
    pub profiled : index vpa.labels b.meta.profile_key ≡ selected
    pub no_managed_fields : vpa.managed_fields ≡ []
    pub manager : options.field_manager ≡ "autovpa"
    pub forced : options.force ≡ true

  -- The calls that a reconciliation of the workload with a profile may make: own writes, and deletions
  -- of VPAs that the workload controls or that name it as an owner.
  abbrev pub WritesOwn : (selected : String) → Profile → Call → Type 0
  WritesOwn selected profile (patch_object vpa options r) = IsOwnWrite selected profile vpa options
  WritesOwn selected profile (delete_object vpa r) =
      (b.platform.is_controlled_by vpa obj ≡ true) ⊎ NamesOwner b obj gvk.kind vpa
  WritesOwn selected profile _ = Unit

  pub cleanup-WritesOwn :
      (selected keep : String) (profile : Profile) (c : Call)
      → IsCleanup b obj (IsObsolete b obj keep) c
      → WritesOwn selected profile c
  cleanup-WritesOwn selected keep profile (patch_object vpa options r) h = absurd h
  cleanup-WritesOwn selected keep profile (delete_object vpa r) h = inl h.1
  cleanup-WritesOwn selected keep profile _ h = tt

  module _ (selected : String) (profile : Profile)
      (distinct : b.meta.managed_label ≢ b.meta.profile_key) (content : KeepsContent b.platform)
      (answers : AnswersKey b.kube_client) (desired : DesiredVpaState)
      (ready : IsDesired b obj gvk selected profile desired) where
    apply_vpa-Emits :
        (vpa : Object)
        → vpa.name ≡ desired.name
        → vpa.namespace ≡ obj.namespace
        → vpa.body ≡ unstructured desired.spec
        → index vpa.labels b.meta.managed_label ≡ "true"
        → index vpa.labels b.meta.profile_key ≡ selected
        → Emits (WritesOwn selected profile) (apply_vpa b vpa)
    unfolding apply_vpa spec_of
    apply_vpa-Emits vpa n ns body m p = Emits-patch b.kube_client _ _ λ r. record {
      namespaced = ns;
      rendered = rw n ready.rendered;
      built = rw body ready.built;
      managed = m;
      profiled = p;
      no_managed_fields = refl;
      manager = refl;
      forced = refl;
    }

    create_vpa-Emits :
        Emits
          (WritesOwn selected profile)
          (create_vpa b obj desired.name desired.labels desired.spec)
    unfolding create_vpa
    create_vpa-Emits = Emits-bind-lift _ _ λ vpa e.
        let (n, ns, labels, body) = content.same_content obj _ vpa e in
        let (m, p) = index-operator_labels b obj gvk selected distinct in
        apply_vpa-Emits vpa n ns body (cc (labels, ready.labelled, m))
          (cc (labels, ready.labelled, p))

    create_desired-Emits : Emits (WritesOwn selected profile) (create_desired b obj gvk desired)
    unfolding create_desired
    create_desired-Emits = search (emits_rules, create_vpa-Emits)

    update_existing-Emits :
        (existing updated : Object)
        → existing.name ≡ desired.name
        → existing.namespace ≡ obj.namespace
        → merge_vpa b existing desired obj ≡ ok updated
        → Emits (WritesOwn selected profile) (update_existing b obj gvk desired updated)
    unfolding update_existing update_vpa merge_vpa
    update_existing-Emits existing updated n ns merged =
        let (n', ns', labels, body) = content.same_content obj _ updated merged in
        let (m, p) = index-merged b obj gvk selected distinct existing.labels in
        Emits-bind _ _
          (apply_vpa-Emits updated (n' ∙ n) (ns' ∙ ns) body (cc (labels, ready.labelled, m))
            (cc (labels, ready.labelled, p)))
          (λ _. search emits_rules)

    pub apply_desired-Emits :
        (found : Option Object)
        → ((existing : Object)
            → found ≡ some existing
            → (existing.name ≡ desired.name) × (existing.namespace ≡ obj.namespace))
        → Emits (WritesOwn selected profile) (apply_desired b obj gvk desired found)
    unfolding apply_desired
    apply_desired-Emits none named = create_desired-Emits
    apply_desired-Emits (some existing) named =
        let (n, ns) = named existing refl in
        Emits-bind-lift _ _ λ updated merged.
          Emits-if _ _ _ (λ _. Emits-pure tt)
            (λ _. update_existing-Emits existing updated n ns merged)
