-- ===== src/System/Desired.antt =====
-- What a successful reconciliation of a workload that is opted in leaves, by
-- internal/controller/base_reconciler.go: the VPA that its profile describes.
use autovpa.Common.{
  String, Bool, true, false, Option, none, some, [], ◌≡◌, ◌≢◌, refl, List, sym, ap, ◌∙◌, inl, inr,
  index?, Bool-cases, if◌then◌else◌,
}
use autovpa.Kube.{
  Object, GroupVersionKind, NamespacedName, Result, ok, err, unstructured, spec_of, is_not_found,
  Error, OwnerReference, PatchOptions,
}
use autovpa.Kube.Laws.{KeepsContent, AnswersKey}
use autovpa.Effect.{pure, throw, get, patch, ◌>>=◌}
use autovpa.Effect.Keeps.{Keeps-then, Keeps-emit}
use autovpa.Effect.Ends.{Ends, Ends-first, Ends-last}
use autovpa.Metrics.{inc_vpa_created, inc_vpa_updated, inc_vpa_managed}
use autovpa.Utils.{merge_maps}
use autovpa.Utils.Maps.{index?-merge_maps}
use autovpa.Controller.{vpa_gvk, vpa_needs_update, new_vpa_object}
use autovpa.Controller.Base.Built.{operator_labels-IsMap, index?-operator_labels}
use autovpa.Controller.Base.Drift.{needs_no_update_iff}
use autovpa.Controller.Base.Desired.{
  BaseReconciler, DesiredVpaState, operator_labels, merge_vpa, apply_vpa, create_vpa, update_vpa,
  found_or_none, fetch_existing_vpa,
}
use autovpa.Controller.Base.{create_desired, update_existing, apply_desired}
use autovpa.System.{key_of, rendered_key, IsFresh, IsApplying}

module _ {W : Type 0} (b : BaseReconciler W) (stored : W → NamespacedName → Option Object)
    (obj : Object) (gvk : GroupVersionKind) where
  -- The VPA of the workload is stored, with an equal spec, the labels of the operator, and owner
  -- references with `P`.
  abbrev pub IsPresent : (List OwnerReference → Type 0) → DesiredVpaState → W → Type 0
  IsPresent P desired w =
      (y : Object) × (stored w (rendered_key obj desired) ≡ some y)
      × (b.platform.deep_equal (spec_of y.body) desired.spec ≡ true)
      × (index? y.labels b.meta.managed_label ≡ some "true")
      × (index? y.labels b.meta.profile_key ≡ some desired.profile)
      × P y.owner_references

  -- What SetControllerReference gives an object without owner references has `P`, an apply keeps it,
  -- and so does an equality of lists.
  pub record IsOwnerProperty (P : List OwnerReference → Type 0) : Type 0 where
    pub made :
        (object x : Object)
        → object.owner_references ≡ []
        → b.platform.set_controller_reference obj object ≡ ok x
        → P x.owner_references
    pub kept :
        (x y : Object) (options : PatchOptions) (w : W)
        → (b.kube_client.patch x options w).0 ≡ ok tt
        → stored (b.kube_client.patch x options w).1 (key_of x) ≡ some y
        → P x.owner_references
        → P y.owner_references
    pub equal : (r s : List OwnerReference) → b.platform.deep_equal_refs r s ≡ true → P s → P r

  module _ (fresh : IsFresh b.kube_client stored)
      (applying : IsApplying b.kube_client b.platform stored)
      (distinct : b.meta.managed_label ≢ b.meta.profile_key) (content : KeepsContent b.platform)
      (answers : AnswersKey b.kube_client) (P : List OwnerReference → Type 0)
      (owners : IsOwnerProperty P) (desired : DesiredVpaState)
      (labelled : desired.labels ≡ operator_labels b desired.profile) where
    apply_vpa-IsPresent :
        (x : Object) (w : W)
        → key_of x ≡ rendered_key obj desired
        → x.body ≡ unstructured desired.spec
        → index? x.labels b.meta.managed_label ≡ some "true"
        → index? x.labels b.meta.profile_key ≡ some desired.profile
        → P x.owner_references
        → Ends (IsPresent P desired) (apply_vpa b x) w
    unfolding apply_vpa patch spec_of
    apply_vpa-IsPresent x w key body managed profiled owned a e =
        let (y, at, spec, labels) = applying.applied (record x { managed_fields = [] }) _ w e in
        (
          y,
          ap (stored (patch b.kube_client (record x { managed_fields = [] }) _ w).world) (sym key)
              ∙ at,
          ap (b.platform.deep_equal (spec_of y.body)) (sym (ap spec_of body)) ∙ spec,
          labels b.meta.managed_label "true" managed,
          labels b.meta.profile_key desired.profile profiled,
          owners.kept (record x { managed_fields = [] }) y _ w e at owned,
        )

    -- SetControllerReference keeps the key.
    same_key :
        (object result : Object)
        → b.platform.set_controller_reference obj object ≡ ok result
        → key_of result ≡ key_of object
    same_key object result h = let c = content.same_content obj object result h in cc (c.0, c.1)

    create_desired-IsPresent :
        (w : W) → Ends (IsPresent P desired) (create_desired b obj gvk desired) w
    unfolding create_desired create_vpa new_vpa_object inc_vpa_created inc_vpa_managed
    create_desired-IsPresent w =
        Ends-first (IsPresent P desired) _ _ w
          (Ends-last (IsPresent P desired) _ _ w (λ x e.
            let (_, _, labels, body) = content.same_content obj _ x e in
            let (m, p) = index?-operator_labels b obj gvk desired.profile distinct in
            let has = labels ∙ labelled in
            apply_vpa-IsPresent x w (same_key _ x e) body
              (ap (λ l. index? l b.meta.managed_label) has ∙ m)
              (ap (λ l. index? l b.meta.profile_key) has ∙ p) (owners.made _ x refl e)))
          (λ _.
            Keeps-then _ _ (Keeps-emit _) (λ _. Keeps-then _ _ (Keeps-emit _) (λ _. Keeps-emit _)))

    module _ (existing : Object) (key : key_of existing ≡ rendered_key obj desired) where
      update_existing-IsPresent :
          (updated : Object) (w : W)
          → merge_vpa b existing desired obj ≡ ok updated
          → Ends (IsPresent P desired) (update_existing b obj gvk desired updated) w
      unfolding update_existing update_vpa merge_vpa new_vpa_object inc_vpa_updated
      update_existing-IsPresent updated w e =
          let (_, _, labels, body) = content.same_content obj _ updated e in
          let once = operator_labels-IsMap b obj gvk desired.profile distinct in
          let (m, p) = index?-operator_labels b obj gvk desired.profile distinct in
          let has = labels ∙ ap (merge_maps existing.labels) labelled in
          let merged = λ (k : String).
            ap (λ l. index? l k) has
            ∙ index?-merge_maps existing.labels (operator_labels b desired.profile) k once in
          Ends-first (IsPresent P desired) _ _ w
            (apply_vpa-IsPresent updated w (same_key _ updated e ∙ key) body
              (cc (merged b.meta.managed_label, m)) (cc (merged b.meta.profile_key, p))
              (owners.made _ updated refl e))
            (λ _. Keeps-then _ _ (Keeps-emit _) (λ _. Keeps-emit _))

      made_merged :
          (updated : Object)
          → merge_vpa b existing desired obj ≡ ok updated
          → P updated.owner_references
      unfolding merge_vpa new_vpa_object
      made_merged updated e = owners.made _ updated refl e

      settled-IsPresent :
          (updated : Object) (w : W)
          → stored w (rendered_key obj desired) ≡ some existing
          → merge_vpa b existing desired obj ≡ ok updated
          → vpa_needs_update b.platform (some existing) (some updated) ≡ false
          → IsPresent P desired w
      settled-IsPresent updated w at e quiet =
          let once = applying.labels_once (rendered_key obj desired) w existing at in
          let s =
            (needs_no_update_iff b obj gvk distinct content desired existing updated labelled once
                e).0
              quiet in
          (
            existing,
            at,
            s.same_spec,
            s.managed,
            s.profiled,
            owners.equal existing.owner_references updated.owner_references s.owned
                (made_merged updated e),
          )

      apply_existing-IsPresent :
          (w : W)
          → stored w (rendered_key obj desired) ≡ some existing
          → Ends (IsPresent P desired) (apply_desired b obj gvk desired (some existing)) w
      unfolding apply_desired
      apply_existing-IsPresent w at = Ends-last (IsPresent P desired) _ _ w (λ updated e.
          elim (Bool-cases (vpa_needs_update b.platform (some existing) (some updated))) [
            | inl needed ↦ rw needed (update_existing-IsPresent updated w e)
            | inr quiet ↦ rw quiet (λ a h. settled-IsPresent updated w at e quiet)
          ])

    -- What is found is what is stored.
    abbrev pub IsFound : W → Option Object → Type 0
    IsFound w none = Unit
    IsFound w (some x) =
        (key_of x ≡ rendered_key obj desired) × (stored w (rendered_key obj desired) ≡ some x)

    none_is_not_some :
        (missing : Bool) (e : Error) (w : W) (x : Object)
        → ((if missing then pure none else throw e) w).result ≢ ok (some x)
    none_is_not_some true e w x h = cc h
    none_is_not_some false e w x h = cc h

    found_or_none-IsFound :
        (r : Result Object) (w : W) (found : Option Object)
        → ((x : Object) → r ≡ ok x → IsFound w (some x))
        → (found_or_none b r w).result ≡ ok found
        → IsFound (found_or_none b r w).world found
    unfolding found_or_none
    found_or_none-IsFound r w none known h = tt
    found_or_none-IsFound (ok y) w (some x) known h = known x (cc h)
    found_or_none-IsFound (err e) w (some x) known h =
        absurd (none_is_not_some (is_not_found e) e w x h)

    pub fetch-IsFound :
        (w : W) (found : Option Object)
        → (fetch_existing_vpa b (rendered_key obj desired) w).result ≡ ok found
        → IsFound (fetch_existing_vpa b (rendered_key obj desired) w).world found
    unfolding fetch_existing_vpa ◌>>=◌ get
    fetch-IsFound w found h =
        let key = rendered_key obj desired in
        found_or_none-IsFound (b.kube_client.get vpa_gvk key w).0
          (b.kube_client.get vpa_gvk key w).1 found
          (λ x got.
            let c = answers.same_key vpa_gvk key w x got in
            (cc (c.0, c.1), fresh.get_keeps vpa_gvk key key w ∙ fresh.get_fresh key w x got))
          h

    pub apply_desired-IsPresent :
        (w : W) (found : Option Object)
        → IsFound w found
        → Ends (IsPresent P desired) (apply_desired b obj gvk desired found) w
    unfolding apply_desired
    apply_desired-IsPresent w none h = create_desired-IsPresent w
    apply_desired-IsPresent w (some existing) h = apply_existing-IsPresent existing h.0 w h.1
