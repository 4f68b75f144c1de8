-- ===== src/System/Cleanups.antt =====
-- What is left of a workload's VPAs when its reconciliation by internal/controller succeeds.
use autovpa.Common.{
  String, true, false, Option, none, some, any, ◌≡◌, ◌≢◌, refl, sym, ap, ◌∙◌, index, index?,
}
use autovpa.Kube.{
  Object, GroupVersionKind, NamespacedName, Result, ok, err, is_not_found, PatchOptions,
}
use autovpa.Kube.Laws.{KeepsContent, AnswersKey}
use autovpa.Config.{Profile}
use autovpa.Effect.{get, emit, patch, ◌>>=◌}
use autovpa.Effect.Keeps.{Keeps, Anything, Keeps-then, Keeps-emit}
use autovpa.Effect.Ends.{Ends, Ends-first, Ends-last}
use autovpa.Metrics.{
  inc_vpa_skipped, inc_vpa_deleted_opt_out, inc_vpa_deleted_workload_gone, dec_vpa_managed,
}
use autovpa.Predicates.{has_non_empty_annotation}
use autovpa.Controller.{vpa_gvk}
use autovpa.Controller.Base.Desired.{BaseReconciler, DesiredVpaState, build_desired_vpa}
use autovpa.Controller.Base.Delete.{
  count_opt_out, count_gone, delete_managed_vpas_for_opt_out, delete_managed_vpas_for_gone_workload,
}
use autovpa.Controller.Base.{opt_out, reconcile_profile, reconcile_workload}
use autovpa.Controller.Base.OptIn.{reconcile_workload_lem}
use autovpa.Controller.Base.Safety.{NamesOwner, refers_to}
use autovpa.Controller.Workload.{gone_workload, reconcile_fetched, reconcile_request}
use autovpa.System.{key_of, rendered_key, IsFresh, IsComplete}
use autovpa.System.Applies.{fetch_and_apply-Leaves}
use autovpa.System.Gone.{Gone, IsManagedHere, obsolete-Ends, delete_managed_vpas-Ends}

module _ {W : Type 0} (b : BaseReconciler W) (stored : W → NamespacedName → Option Object)
    (fresh : IsFresh b.kube_client stored) (complete : IsComplete b.kube_client stored)
    (o obj : Object) (gvk : GroupVersionKind) where
  abbrev IsGone : W → Type 0
  IsGone = Gone b stored fresh complete o

  abbrev Here : W → Type 0
  Here = IsManagedHere b stored fresh complete o obj gvk.kind

  patch-IsGone :
      (x : Object) (options : PatchOptions)
      → key_of x ≢ key_of o
      → Keeps IsGone Anything (patch b.kube_client x options)
  unfolding patch
  patch-IsGone x options other = record {
    state = λ w g. fresh.patch_only x options (key_of o) w other ∙ g;
    answer = λ w g a e. tt;
  }

  get-IsGone :
      (key : NamespacedName) (w : W) → IsGone w → IsGone (b.kube_client.get vpa_gvk key w).1
  get-IsGone key w g = fresh.get_keeps vpa_gvk key (key_of o) w ∙ g

  module _ (content : KeepsContent b.platform) (answers : AnswersKey b.kube_client)
      (controlled : b.platform.is_controlled_by o obj ≡ true) where
    reconcile_profile-IsGone :
        (selected : String) (profile : Profile) (w : W)
        → ((desired : DesiredVpaState)
            → build_desired_vpa b obj gvk selected profile ≡ ok desired
            → o.name ≢ desired.name)
        → Here w
        → Ends IsGone (reconcile_profile b obj gvk selected (some profile)) w
    unfolding reconcile_profile
    reconcile_profile-IsGone selected profile w renamed here =
        Ends-last IsGone _ _ w (λ desired built.
          let other : rendered_key obj desired ≢ key_of o =
            λ same. renamed desired built (sym (ap (λ (k : NamespacedName). k.name) same)) in
          Ends-first IsGone _ _ w
            (obsolete-Ends b stored fresh complete o obj gvk.kind desired.name
              (renamed desired built) controlled w here)
            (λ _.
              fetch_and_apply-Leaves b (key_of o) IsGone patch-IsGone get-IsGone content answers obj
                gvk desired other))

    -- If the reconciliation of a workload that is opted in, with a profile that exists, succeeds, then
    -- a VPA that was stored in its namespace with the managed label, that the workload controls, and
    -- whose name is not the rendered one, is no longer stored. The API server must be read without
    -- delay, list completely and delete what it says it has deleted, Get must answer with the object
    -- asked for, and SetControllerReference must keep what is not an owner reference.
    reconcile_workload-IsGone :
        (profile : Profile) (w : W)
        → has_non_empty_annotation (some obj) b.meta.profile_key ≡ true
        → index? b.profiles.entries (index obj.annotations b.meta.profile_key) ≡ some profile
        → ((desired : DesiredVpaState)
            → build_desired_vpa b obj gvk (index obj.annotations b.meta.profile_key) profile
              ≡ ok desired
            → o.name ≢ desired.name)
        → Here w
        → (reconcile_workload b obj gvk w).result ≡ ok tt
        → stored (reconcile_workload b obj gvk w).world (key_of o) ≡ none
    reconcile_workload-IsGone profile w opted chosen renamed here =
        rw (reconcile_workload_lem b obj gvk, opted, chosen)
          (reconcile_profile-IsGone (index obj.annotations b.meta.profile_key) profile w renamed
            here tt)

  module _ (names : NamesOwner b obj gvk.kind o) where
    count_opt_out-IsGone :
        (ns profile : String) → Keeps IsGone Anything (count_opt_out b obj gvk.kind ns profile)
    unfolding count_opt_out inc_vpa_deleted_opt_out dec_vpa_managed
    count_opt_out-IsGone ns profile = Keeps-then _ _ (Keeps-emit _) (λ _. Keeps-emit _)

    count_gone-IsGone :
        (ns profile : String) → Keeps IsGone Anything (count_gone b obj gvk.kind ns profile)
    unfolding count_gone inc_vpa_deleted_workload_gone dec_vpa_managed
    count_gone-IsGone ns profile = Keeps-then _ _ (Keeps-emit _) (λ _. Keeps-emit _)

    opt_out-IsGone : (w : W) → Here w → Ends IsGone (opt_out b obj gvk) w
    unfolding opt_out inc_vpa_skipped emit delete_managed_vpas_for_opt_out
    opt_out-IsGone w here = Ends-last IsGone _ _ w (λ _ _. Ends-last IsGone _ _ w (λ _ _.
        delete_managed_vpas-Ends b stored fresh complete o obj gvk.kind
          (count_opt_out b obj gvk.kind) count_opt_out-IsGone names w here))

    for_workload-IsGone :
        (w : W) → Here w → Ends IsGone (delete_managed_vpas_for_gone_workload b obj gvk.kind) w
    unfolding delete_managed_vpas_for_gone_workload
    for_workload-IsGone w here =
        delete_managed_vpas-Ends b stored fresh complete o obj gvk.kind (count_gone b obj gvk.kind)
          count_gone-IsGone names w here

    opted_out-IsGone :
        (w : W)
        → has_non_empty_annotation (some obj) b.meta.profile_key ≡ false
        → Here w
        → Ends IsGone (reconcile_workload b obj gvk) w
    opted_out-IsGone w out here = rw (reconcile_workload_lem b obj gvk, out) (opt_out-IsGone w here)

module _ {W : Type 0} (b : BaseReconciler W) (stored : W → NamespacedName → Option Object)
    (fresh : IsFresh b.kube_client stored) (complete : IsComplete b.kube_client stored)
    (answers : AnswersKey b.kube_client) (o : Object) (gvk : GroupVersionKind)
    (req : NamespacedName) where
  -- The workload is gone, or has no profile annotation.
  abbrev pub IsUnwanted : Result Object → Type 0
  IsUnwanted (ok workload) = has_non_empty_annotation (some workload) b.meta.profile_key ≡ false
  IsUnwanted (err e) = is_not_found e ≡ true

  -- A VPA with the managed label that names the workload of the request as an owner.
  pub record IsOwned (w : W) : Type 0 where
    pub exists : stored w (key_of o) ≡ some o
    pub same_namespace : o.namespace ≡ req.namespace
    pub managed : index o.labels b.meta.managed_label ≡ "true"
    pub names : any (refers_to gvk.kind req.name) o.owner_references ≡ true

  reconcile_fetched-IsGone :
      (r : Result Object) (w : W)
      → IsUnwanted r
      → ((x : Object) → r ≡ ok x → (x.name ≡ req.name) × (x.namespace ≡ req.namespace))
      → IsOwned w
      → Ends (Gone b stored fresh complete o) (reconcile_fetched b gvk req r) w
  unfolding reconcile_fetched
  reconcile_fetched-IsGone (ok x) w out key h =
      let (n, ns) = key x refl in
      opted_out-IsGone b stored fresh complete o x gvk (rw n h.names) w out
        (h.exists, h.same_namespace ∙ sym ns, h.managed)
  reconcile_fetched-IsGone (err e) w missing key h = rw missing (
      for_workload-IsGone b stored fresh complete o (gone_workload b gvk req) gvk h.names w
        (h.exists, h.same_namespace, h.managed))

  get-IsOwned : (w : W) → IsOwned w → IsOwned (b.kube_client.get gvk req w).1
  get-IsOwned w h = record {
    exists = fresh.get_keeps gvk req (key_of o) w ∙ h.exists;
    same_namespace = h.same_namespace;
    managed = h.managed;
    names = h.names;
  }

  -- If the reconciliation of a request succeeds whose workload is gone or has no profile annotation,
  -- then a VPA that was stored in its namespace with the managed label and an owner reference that
  -- names the workload is no longer stored. The API server must be read without delay, list
  -- completely and delete what it says it has deleted, and Get must answer with the object asked
  -- for.
  reconcile_request-IsGone :
      (w : W)
      → IsUnwanted (b.kube_client.get gvk req w).0
      → IsOwned w
      → (reconcile_request b gvk req w).result ≡ ok tt
      → stored (reconcile_request b gvk req w).world (key_of o) ≡ none
  unfolding reconcile_request ◌>>=◌ get
  reconcile_request-IsGone w unwanted h =
      reconcile_fetched-IsGone (b.kube_client.get gvk req w).0 (b.kube_client.get gvk req w).1
        unwanted (answers.same_key gvk req w) (get-IsOwned w h) tt
