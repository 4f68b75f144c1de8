-- ===== src/Controller/Base/Settled.antt =====
-- A reconciliation, by internal/controller/base_reconciler.go, of a workload whose VPA is settled.
use autovpa.Common.{
  String, true, false, some, List, [], ◌∷◌, ◌≡◌, ◌≢◌, refl, ◌⊎◌, inl, inr, index?, index, IsMap,
  entries, All, eq_iff, ◌==◌, Bool-cases,
}
use autovpa.Kube.{Object, GroupVersionKind, NamespacedName, ok}
use autovpa.Kube.Laws.{KeepsContent}
use autovpa.Config.{Profile}
use autovpa.Effect.{Outcome, pure, ◌>>=◌, list_objects, get_object, get, list}
use autovpa.Predicates.{has_non_empty_annotation}
use autovpa.Controller.{vpa_gvk, vpa_list_gvk}
use autovpa.Controller.Base.Built.{build_desired_vpa-IsDesired}
use autovpa.Controller.Base.Desired.{
  DesiredVpaState, BaseReconciler, operator_labels, build_desired_vpa, found_or_none,
  fetch_existing_vpa, merge_vpa, as_listed, list_managed_vpas,
}
use autovpa.Controller.Base.Delete.{
  delete_obsolete_one, delete_obsolete_loop, delete_obsolete_managed_vpas,
}
use autovpa.Controller.Base.Drift.{IsSettled, needs_no_update_iff}
use autovpa.Controller.Base.OptIn.{reconcile_workload_lem}
use autovpa.Controller.Base.{apply_desired, reconcile_profile, reconcile_workload}

module _ {W : Type 0} (b : BaseReconciler W) (obj : Object) (gvk : GroupVersionKind) where
  module _ (keep : String) where
    -- The cleanup leaves this VPA alone.
    abbrev pub IsKept : Object → Type 0
    IsKept vpa = (vpa.name ≡ keep) ⊎ (b.platform.is_controlled_by vpa obj ≡ false)

    delete_obsolete_one-IsKept :
        (vpa : Object) (w : W)
        → IsKept vpa
        → delete_obsolete_one b obj gvk.kind keep vpa w ≡ pure tt w
    unfolding delete_obsolete_one
    delete_obsolete_one-IsKept vpa w (inl same) = rw ((eq_iff vpa.name keep).1 same) refl
    delete_obsolete_one-IsKept vpa w (inr free) = elim (Bool-cases (vpa.name == keep)) [
      | inl same ↦ rw same refl
      | inr other ↦ rw (other, free) refl
    ]

    pub delete_obsolete_loop-IsKept :
        (vpas : List Object) (w : W)
        → All IsKept vpas
        → delete_obsolete_loop b obj gvk.kind keep vpas w ≡ pure tt w
    unfolding delete_obsolete_loop ◌>>=◌
    delete_obsolete_loop-IsKept [] w h = refl
    delete_obsolete_loop-IsKept (vpa ∷ vpas) w h =
        rw (delete_obsolete_one-IsKept vpa w h.0, delete_obsolete_loop-IsKept vpas w h.1) refl

  -- The state after the list of managed VPAs, and the key that is read then.
  abbrev pub after_list : W → W
  after_list w = (b.kube_client.list vpa_list_gvk obj.namespace b.meta.managed_label "true" w).1

  abbrev pub key : DesiredVpaState → NamespacedName
  key desired = record { name = desired.name; namespace = obj.namespace }

  -- What the client answers when the workload's VPA is as it should be, and no other one is the
  -- workload's: to the list, from the state `w`, and to the read that comes after it.
  pub record IsSettledCluster (w : W) (desired : DesiredVpaState) (vpas : List Object)
      (existing updated : Object) : Type 0 where
    pub listed :
        (b.kube_client.list vpa_list_gvk obj.namespace b.meta.managed_label "true" w).0 ≡ ok vpas
    pub others : All (IsKept desired.name) vpas
    pub found : (b.kube_client.get vpa_gvk (key desired) (after_list w)).0 ≡ ok existing
    pub labels-IsMap : IsMap (entries existing.labels)
    pub merged : merge_vpa b existing desired obj ≡ ok updated
    pub settled : IsSettled b obj gvk desired existing updated

  module _ (w : W) (desired : DesiredVpaState) (vpas : List Object) (existing : Object) where
    -- The two reads and what they answered.
    abbrev pub only_reads : Outcome W Unit
    only_reads = record {
      result = ok tt;
      world = (b.kube_client.get vpa_gvk (key desired) (after_list w)).1;
      calls =
          list_objects vpa_list_gvk obj.namespace b.meta.managed_label "true" (ok vpas)
          ∷ get_object vpa_gvk (key desired) (ok existing)
          ∷ [];
    }

  module _ (distinct : b.meta.managed_label ≢ b.meta.profile_key)
      (content : KeepsContent b.platform) (w : W) (profile : Profile) (desired : DesiredVpaState)
      (vpas : List Object) (existing updated : Object)
      (cluster : IsSettledCluster w desired vpas existing updated) where
    list-IsSettled : list_managed_vpas b obj.namespace w ≡ record {
      result = ok vpas;
      world = after_list w;
      calls = list_objects vpa_list_gvk obj.namespace b.meta.managed_label "true" (ok vpas) ∷ [];
    }
    unfolding list_managed_vpas ◌>>=◌ list as_listed
    list-IsSettled = rw cluster.listed refl

    cleanup-IsSettled : delete_obsolete_managed_vpas b obj gvk.kind desired.name w ≡ record {
      result = ok tt;
      world = after_list w;
      calls = list_objects vpa_list_gvk obj.namespace b.meta.managed_label "true" (ok vpas) ∷ [];
    }
    unfolding delete_obsolete_managed_vpas ◌>>=◌
    cleanup-IsSettled =
        rw
          (
            list-IsSettled,
            delete_obsolete_loop-IsKept desired.name vpas (after_list w) cluster.others,
          )
          refl

    fetch-IsSettled : fetch_existing_vpa b (key desired) (after_list w) ≡ record {
      result = ok (some existing);
      world = (b.kube_client.get vpa_gvk (key desired) (after_list w)).1;
      calls = get_object vpa_gvk (key desired) (ok existing) ∷ [];
    }
    unfolding fetch_existing_vpa found_or_none ◌>>=◌ get
    fetch-IsSettled = rw cluster.found refl

    apply-IsSettled :
        (v : W)
        → desired.labels ≡ operator_labels b desired.profile
        → apply_desired b obj gvk desired (some existing) v ≡ pure tt v
    unfolding apply_desired ◌>>=◌
    apply-IsSettled v labelled =
        let quiet =
          needs_no_update_iff b obj gvk distinct content desired existing updated labelled
            cluster.labels-IsMap cluster.merged in
        rw (cluster.merged, quiet.1 cluster.settled) refl

    -- Such a workload is read and not written.
    reconcile_profile-IsSettled :
        (selected : String)
        → build_desired_vpa b obj gvk selected profile ≡ ok desired
        → reconcile_profile b obj gvk selected (some profile) w ≡ only_reads w desired vpas existing
    unfolding reconcile_profile ◌>>=◌
    reconcile_profile-IsSettled selected built =
        let ready = build_desired_vpa-IsDesired b obj gvk selected profile desired built in
        let labelled : desired.labels ≡ operator_labels b desired.profile =
          rw ready.selects ready.labelled in
        rw (built, cleanup-IsSettled, fetch-IsSettled, apply-IsSettled _ labelled) refl

    -- A workload that is opted in and whose profile exists and renders, while the client reports its
    -- VPA as settled and no other VPA under its control, is reconciled by two reads that succeed:
    -- nothing is written, deleted, counted or recorded. The label keys must differ, no label of the
    -- VPA may stand twice, and SetControllerReference must keep what is not an owner reference.
    pub reconcile_workload-IsSettledCluster :
        has_non_empty_annotation (some obj) b.meta.profile_key ≡ true
        → index? b.profiles.entries (index obj.annotations b.meta.profile_key) ≡ some profile
        → build_desired_vpa b obj gvk (index obj.annotations b.meta.profile_key) profile
          ≡ ok desired
        → reconcile_workload b obj gvk w ≡ only_reads w desired vpas existing
    reconcile_workload-IsSettledCluster opted chosen built =
        rw (reconcile_workload_lem b obj gvk, opted, chosen) (reconcile_profile-IsSettled _ built)
