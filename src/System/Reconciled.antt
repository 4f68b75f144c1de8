-- ===== src/System/Reconciled.antt =====
-- What a successful reconciliation of a workload that is opted in, by
-- internal/controller/base_reconciler.go, makes of the VPAs of the cluster, as a relation between what was
-- stored before and what is stored after.
use autovpa.Common.{String, true, Option, List, some, ◌≡◌, ◌≢◌, index, index?}
use autovpa.Kube.{Object, OwnerReference, GroupVersionKind, NamespacedName, ok}
use autovpa.Kube.Laws.{KeepsContent, AnswersKey}
use autovpa.Config.{Profile}
use autovpa.Effect.Ends.{Ends, Ends-last}
use autovpa.Predicates.{has_non_empty_annotation}
use autovpa.Controller.Base.Built.{build_desired_vpa-IsDesired}
use autovpa.Controller.Base.Desired.{
  BaseReconciler, DesiredVpaState, operator_labels, build_desired_vpa,
}
use autovpa.Controller.Base.{reconcile_profile, reconcile_workload}
use autovpa.Controller.Base.OptIn.{reconcile_workload_lem}
use autovpa.System.{rendered_key, IsFresh, IsApplying, IsApiServer}
use autovpa.System.Desired.{IsPresent, IsOwnerProperty, fetch-IsFound, apply_desired-IsPresent}
use autovpa.System.Elsewhere.{cleaned, cleaned_and_applied, cleaned_and_applied-cleaned}

module _ {W : Type 0} (b : BaseReconciler W) (stored : W → NamespacedName → Option Object)
    (obj : Object) (gvk : GroupVersionKind) (P : List OwnerReference → Type 0) where
  module _ (fresh : IsFresh b.kube_client stored)
      (applying : IsApplying b.kube_client b.platform stored)
      (owners : IsOwnerProperty b stored obj gvk P)
      (distinct : b.meta.managed_label ≢ b.meta.profile_key) (content : KeepsContent b.platform)
      (answers : AnswersKey b.kube_client) (selected : String) (profile : Profile) where
    cleaned_and_applied-IsPresent :
        (desired : DesiredVpaState) (w : W)
        → build_desired_vpa b obj gvk selected profile ≡ ok desired
        → Ends (IsPresent b stored obj gvk P desired) (cleaned_and_applied b obj gvk desired) w
    cleaned_and_applied-IsPresent desired w built =
        let ready = build_desired_vpa-IsDesired b obj gvk selected profile desired built in
        let labelled : desired.labels ≡ operator_labels b desired.profile =
          rw ready.selects ready.labelled in
        Ends-last (IsPresent b stored obj gvk P desired) _ _ w (λ _ _.
          Ends-last (IsPresent b stored obj gvk P desired) _ _ _ (λ found got.
            apply_desired-IsPresent b stored obj gvk fresh applying distinct content answers P
              owners desired labelled _ found
              (fetch-IsFound b stored obj gvk fresh applying distinct content answers P owners
                desired labelled _ found got)))

    -- The VPA that the profile describes is stored.
    abbrev pub HasDesired : W → Type 0
    HasDesired w =
        (desired : DesiredVpaState) × (build_desired_vpa b obj gvk selected profile ≡ ok desired)
        × IsPresent b stored obj gvk P desired w

    reconcile_profile-HasDesired :
        (w : W) → Ends HasDesired (reconcile_profile b obj gvk selected (some profile)) w
    unfolding reconcile_profile
    reconcile_profile-HasDesired w = Ends-last HasDesired _ _ w (λ desired built a done.
        (desired, built, cleaned_and_applied-IsPresent desired w built a done))

  module _ (fresh : IsFresh b.kube_client stored)
      (applying : IsApplying b.kube_client b.platform stored)
      (owners : IsOwnerProperty b stored obj gvk P)
      (distinct : b.meta.managed_label ≢ b.meta.profile_key) (content : KeepsContent b.platform)
      (answers : AnswersKey b.kube_client) where
    -- If the reconciliation of a workload that is opted in, with a profile that exists, succeeds, then
    -- a VPA is stored under the rendered name in the workload's namespace with the spec of the profile
    -- for this workload, up to semantic equality, the managed label, the label of the profile, and
    -- owner references with `P`. The label keys must differ; the API server must be read without
    -- delay and keep what is applied, Get must answer with the object asked for,
    -- SetControllerReference must keep what is not an owner reference, and `P` must hold of the owner
    -- references that it makes and be kept by an apply and by an equality.
    reconcile_workload-IsPresent :
        (profile : Profile) (w : W)
        → has_non_empty_annotation (some obj) b.meta.profile_key ≡ true
        → index? b.profiles.entries (index obj.annotations b.meta.profile_key) ≡ some profile
        → (reconcile_workload b obj gvk w).result ≡ ok tt
        → (desired : DesiredVpaState) × (build_desired_vpa b obj gvk
              (index obj.annotations b.meta.profile_key)
              profile
            ≡ ok desired)
          × IsPresent b stored obj gvk P desired (reconcile_workload b obj gvk w).world
    reconcile_workload-IsPresent profile w opted chosen =
        rw (reconcile_workload_lem b obj gvk, opted, chosen)
          (reconcile_profile-HasDesired fresh applying owners distinct content answers
            (index obj.annotations b.meta.profile_key) profile w tt)

  -- The rendered VPA is as desired, and under every other key is what was there, unless it was
  -- obsolete.
  pub record IsReconciled (desired : DesiredVpaState) (w w' : W) : Type 0 where
    pub present : IsPresent b stored obj gvk P desired w'
    pub elsewhere :
        (k : NamespacedName)
        → rendered_key obj desired ≢ k
        → stored w' k ≡ cleaned b obj desired.name (stored w k)

  -- The same with the desired VPA that is built.
  abbrev pub Reconciles : (selected : String) → Profile → W → W → Type 0
  Reconciles selected profile w w' =
      (desired : DesiredVpaState) × (build_desired_vpa b obj gvk selected profile ≡ ok desired)
      × IsReconciled desired w w'

  module _ (server : IsApiServer b.kube_client b.platform stored)
      (owners : IsOwnerProperty b stored obj gvk P)
      (distinct : b.meta.managed_label ≢ b.meta.profile_key)
      (content : KeepsContent b.platform) where
    reconcile_profile-IsReconciled :
        (selected : String) (profile : Profile) (w : W)
        → Ends
            (Reconciles selected profile w)
            (reconcile_profile b obj gvk selected (some profile))
            w
    unfolding reconcile_profile
    reconcile_profile-IsReconciled selected profile w =
        Ends-last (Reconciles selected profile w) _ _ w (λ desired built a done. (
          desired,
          built,
          record {
            present =
                cleaned_and_applied-IsPresent server.fresh server.applying owners distinct content
                  server.answers selected profile desired w built a done;
            elsewhere = λ k other.
                cleaned_and_applied-cleaned b stored server.fresh server.complete server.consistent
                  content server.answers obj gvk desired k other w a done;
          },
        ))

    -- If the reconciliation of a workload that is opted in, with a profile that exists, succeeds, then
    -- afterwards a VPA is stored under the rendered name in the workload's namespace with the spec of
    -- the profile for this workload, up to semantic equality, the managed label, the label of the
    -- profile, and owner references with `P`; and under every other key is exactly what was stored
    -- before, except that a VPA of the workload's namespace with the managed label is gone if the
    -- workload controls it and it has another name. The API server must meet its laws, the label
    -- keys must differ, SetControllerReference must keep what is not an owner reference, and `P` must
    -- hold of the owner references that it makes and be kept by an apply and by an equality.
    pub reconcile_workload-IsReconciled :
        (profile : Profile) (w : W)
        → has_non_empty_annotation (some obj) b.meta.profile_key ≡ true
        → index? b.profiles.entries (index obj.annotations b.meta.profile_key) ≡ some profile
        → (reconcile_workload b obj gvk w).result ≡ ok tt
        → Reconciles
            (index obj.annotations b.meta.profile_key)
            profile
            w
            (reconcile_workload b obj gvk w).world
    reconcile_workload-IsReconciled profile w opted chosen =
        rw (reconcile_workload_lem b obj gvk, opted, chosen)
          (reconcile_profile-IsReconciled (index obj.annotations b.meta.profile_key) profile w tt)
