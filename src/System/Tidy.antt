-- ===== src/System/Tidy.antt =====
-- A reconciliation of a workload, by internal/controller/base_reconciler.go, whose VPA is as it should be
-- while no other one is obsolete.
use autovpa.Common.{
  String, true, false, Option, some, ◌≡◌, ◌≢◌, refl, sym, ◌∙◌, index?, IsMap, entries,
}
use autovpa.Kube.{Object, OwnerReference, GroupVersionKind, NamespacedName, ok, spec_of}
use autovpa.Kube.Laws.{KeepsContent, ComparesOwners, MakesReference}
use autovpa.Config.{Profile}
use autovpa.Effect.Runs.{Runs, Runs-pure, Runs-lift, Runs-bind, ok-injective}
use autovpa.Controller.{vpa_needs_update, new_vpa_object}
use autovpa.Controller.Base.Built.{build_desired_vpa-IsDesired}
use autovpa.Controller.Base.Drift.{needs_no_update_iff}
use autovpa.Controller.Base.Desired.{
  BaseReconciler, DesiredVpaState, operator_labels, build_desired_vpa, merge_vpa,
}
use autovpa.Controller.Base.{apply_desired, reconcile_profile}
use autovpa.System.{IsReadable}
use autovpa.System.Reads.{IsRead, Here, IsTidy, cleanup-Runs, fetch-Runs}
use autovpa.System.Owned.{IsOnly}
use autovpa.System.Elsewhere.{cleaned_and_applied}

module _ {W : Type 0} (b : BaseReconciler W) (stored : W → NamespacedName → Option Object)
    (obj : Object) (gvk : GroupVersionKind) (server : IsReadable b.kube_client stored)
    (distinct : b.meta.managed_label ≢ b.meta.profile_key) (content : KeepsContent b.platform)
    (compares : ComparesOwners b.platform) (ref : OwnerReference)
    (makes : MakesReference b.platform obj gvk ref) where
  module _ (selected : String) (profile : Profile) (desired : DesiredVpaState)
      (built : build_desired_vpa b obj gvk selected profile ≡ ok desired) (y : Object)
      (once : IsMap (entries y.labels))
      (spec : b.platform.deep_equal (spec_of y.body) desired.spec ≡ true)
      (managed : index? y.labels b.meta.managed_label ≡ some "true")
      (profiled : index? y.labels b.meta.profile_key ≡ some desired.profile)
      (only : IsOnly ref y.owner_references) where
    made_merged :
        (existing updated : Object)
        → merge_vpa b existing desired obj ≡ ok updated
        → IsOnly ref updated.owner_references
    unfolding merge_vpa new_vpa_object
    made_merged existing updated e = makes.only_reference _ updated refl e

    needs_none :
        (w : W) (updated : Object)
        → Here b stored obj gvk server desired y w
        → merge_vpa b y desired obj ≡ ok updated
        → vpa_needs_update b.platform (some y) (some updated) ≡ false
    needs_none w updated h e =
        let ready = build_desired_vpa-IsDesired b obj gvk selected profile desired built in
        let labelled : desired.labels ≡ operator_labels b desired.profile =
          rw ready.selects ready.labelled in
        (needs_no_update_iff b obj gvk distinct content desired y updated labelled once e).1
          (record {
            same_spec = spec;
            managed = managed;
            profiled = profiled;
            owned = (compares.equal_iff _ _).1 (only ∙ sym (made_merged y updated e));
          })

    apply-Runs :
        (v w : W)
        → Here b stored obj gvk server desired y v
        → Runs IsRead (λ a w'. Unit) (apply_desired b obj gvk desired (some y)) w
    unfolding apply_desired
    apply-Runs v w h =
        Runs-bind _ (λ a w'. Unit) _ _ w (Runs-lift (merge_vpa b y desired obj) w)
          (λ updated w' (e, same).
            rw (needs_none v updated h e) (Runs-pure (λ a w'. Unit) tt w' tt))

    -- The three parts together.
    tidy-Runs :
        (w : W)
        → IsTidy b stored obj gvk server desired w
        → Here b stored obj gvk server desired y w
        → Runs IsRead (λ a w'. Unit) (cleaned_and_applied b obj gvk desired) w
    tidy-Runs w tidy h =
        Runs-bind (λ a w'. Here b stored obj gvk server desired y w') (λ a w'. Unit) _ _ w
          (cleanup-Runs b stored obj gvk server desired (Here b stored obj gvk server desired y)
            (λ u at. server.fresh.list_keeps obj.namespace b.meta.managed_label "true" _ u ∙ at) w
            tidy h)
          (λ a w' here.
            Runs-bind (λ found w''. found ≡ some y) (λ a w''. Unit) _ _ w'
              (fetch-Runs b stored obj gvk server desired y w' here)
              (λ found w'' same. rw same (apply-Runs w' w'' here)))

    pub profile-Runs :
        (w : W)
        → IsTidy b stored obj gvk server desired w
        → Here b stored obj gvk server desired y w
        → Runs IsRead (λ a w'. Unit) (reconcile_profile b obj gvk selected (some profile)) w
    unfolding reconcile_profile
    profile-Runs w tidy h =
        Runs-bind (λ d w'. (build_desired_vpa b obj gvk selected profile ≡ ok d) × (w' ≡ w))
          (λ a w'. Unit) _ _ w (Runs-lift (build_desired_vpa b obj gvk selected profile) w)
          (λ d w' (e, same).
            let it : d ≡ desired = ok-injective (sym e ∙ built) in
            rw (it, same) (tidy-Runs w tidy h))
