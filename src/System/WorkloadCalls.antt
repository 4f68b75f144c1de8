-- ===== src/System/WorkloadCalls.antt =====
-- A request to a workload controller of internal/controller keeps whatever its reads, its deletes and its
-- applies keep, as long as the key `k` is not the one that it renders.
use autovpa.Common.{refl, true, Option, none, some, any, ◌≡◌, ◌≢◌, index, index?, All}
use autovpa.Kube.{Object, GroupVersionKind, NamespacedName, PatchOptions, ok}
use autovpa.Kube.Laws.{KeepsContent, AnswersKey}
use autovpa.Config.{Profile}
use autovpa.Effect.{Action, list, delete, patch}
use autovpa.Effect.Keeps.{
  Anything, Keeps, Keeps-lift, Keeps-bind, Keeps-then, Keeps-emit, keeps_rules,
}
use autovpa.Metrics.{inc_vpa_skipped}
use autovpa.Controller.{vpa_gvk, vpa_list_gvk}
use autovpa.Controller.Base.Desired.{BaseReconciler, DesiredVpaState, build_desired_vpa}
use autovpa.Controller.Base.{opt_out, profile_missing, reconcile_profile, reconcile_workload}
use autovpa.Controller.Base.OptIn.{reconcile_workload_lem}
use autovpa.Controller.Base.Safety.{refers_to}
use autovpa.System.{rendered_key, key_of}
use autovpa.System.Applies.{fetch_and_apply-Leaves}
use autovpa.System.Obsolete.{list_managed_vpas-Leaves, delete_obsolete_managed_vpas-Leaves}
use autovpa.System.Deletions.{for_opt_out-Leaves}

module _ {W : Type 0} (b : BaseReconciler W) (k : NamespacedName) (I : W → Type 0)
    (patches : (x : Object) (options : PatchOptions)
      → key_of x ≢ k
      → Keeps I Anything (patch b.kube_client x options))
    (reads : (key : NamespacedName) (w : W) → I w → I (b.kube_client.get vpa_gvk key w).1)
    (content : KeepsContent b.platform) (answers : AnswersKey b.kube_client) (obj : Object)
    (gvk : GroupVersionKind) (P : Object → Type 0)
    (lists : Keeps I
      (All P)
      (list b.kube_client vpa_list_gvk obj.namespace b.meta.managed_label "true"))
    (controlled : (x : Object)
      → b.platform.is_controlled_by x obj ≡ true
      → P x
      → Keeps I Anything (delete b.kube_client x))
    (named : (x : Object)
      → any (refers_to gvk.kind obj.name) x.owner_references ≡ true
      → P x
      → Keeps I Anything (delete b.kube_client x))
    (never : (profile : Profile) (desired : DesiredVpaState)
      → index? b.profiles.entries (index obj.annotations b.meta.profile_key) ≡ some profile
      → build_desired_vpa b obj gvk (index obj.annotations b.meta.profile_key) profile ≡ ok desired
      → rendered_key obj desired ≢ k) where
  abbrev LeavesIt : {A : Type 0} → Action W A → Type 0
  LeavesIt m = Keeps I Anything m

  reconcile_profile-Leaves :
      (profile : Option Profile)
      → index? b.profiles.entries (index obj.annotations b.meta.profile_key) ≡ profile
      → LeavesIt (reconcile_profile b obj gvk (index obj.annotations b.meta.profile_key) profile)
  unfolding reconcile_profile profile_missing inc_vpa_skipped
  reconcile_profile-Leaves none chosen = Keeps-then _ _ (Keeps-emit _) (λ _. Keeps-emit _)
  reconcile_profile-Leaves (some profile) chosen =
      Keeps-bind _ _
        (Keeps-lift {Q = λ desired. rendered_key obj desired ≢ k} _
          (λ desired built. never profile desired chosen built))
        (λ desired other.
          Keeps-then _ _
            (delete_obsolete_managed_vpas-Leaves b I obj gvk.kind desired.name P
              (λ x _ mine. controlled x mine) (list_managed_vpas-Leaves b I P obj.namespace lists))
            (λ _. fetch_and_apply-Leaves b k I patches reads content answers obj gvk desired other))

  opt_out-Leaves : LeavesIt (opt_out b obj gvk)
  unfolding opt_out inc_vpa_skipped
  opt_out-Leaves =
      Keeps-then _ _ (Keeps-emit _) (λ _.
        Keeps-then _ _ (Keeps-emit _) (λ _. for_opt_out-Leaves b I obj gvk.kind P named lists))

  pub reconcile_workload-Leaves : LeavesIt (reconcile_workload b obj gvk)
  reconcile_workload-Leaves =
      let profiled =
        reconcile_profile-Leaves
          (index? b.profiles.entries (index obj.annotations b.meta.profile_key)) refl in
      rw reconcile_workload_lem (search (keeps_rules, profiled, opt_out-Leaves))
