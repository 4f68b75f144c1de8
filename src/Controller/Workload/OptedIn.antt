-- ===== src/Controller/Workload/OptedIn.antt =====
-- For which workloads the controllers of internal/controller write a VPA.
use autovpa.Common.{
  String, Bool, true, false, Option, none, some, List, [], ◌∷◌, arith, ◌≡◌, refl, index?, index,
  any, All, All-map, ap, sym, ◌∙◌, if◌then◌else◌,
}
use autovpa.Kube.{Object, GroupVersionKind, NamespacedName, Result, ok, err}
use autovpa.Config.{Profile}
use autovpa.Effect.{
  Call, Action, get_object, list_objects, delete_object, patch_object, ◌>>=◌, get, emit,
}
use autovpa.Effect.Counts.{is_patch}
use autovpa.Effect.Emits.{Emits, emits_rules, Emits-bind, Emits-emit}
use autovpa.Metrics.{inc_vpa_skipped}
use autovpa.Predicates.{has_non_empty_annotation}
use autovpa.Controller.Base.{opt_out, profile_missing, reconcile_profile, reconcile_workload}
use autovpa.Controller.Base.Desired.{BaseReconciler}
use autovpa.Controller.Base.OptIn.{reconcile_workload_lem}
use autovpa.Controller.Base.Safety.{IsCleanup, NamesOwner, delete_managed_vpas-NamesOwner}
use autovpa.Controller.Workload.{gone_workload, reconcile_fetched, reconcile_request}

-- A call that applies nothing
abbrev NoPatch : Call → Type 0
NoPatch c = is_patch c ≡ false

any-NoPatch : (cs : List Call) → All NoPatch cs → any is_patch cs ≡ false
any-NoPatch [] h = refl
any-NoPatch (c ∷ cs) h = rw h.0 (any-NoPatch cs h.1)

-- Of two branches only the first can have applied something.
then_patches :
    {W : Type 0} (flag : Bool) (m n : Action W Unit) (w : W)
    → any is_patch ((if flag then m else n) w).calls ≡ true
    → any is_patch (n w).calls ≡ false
    → (flag ≡ true) × (any is_patch (m w).calls ≡ true)
then_patches true m n w h quiet = (refl, h)
then_patches false m n w h quiet = cc (h, quiet)

module _ {W : Type 0} (b : BaseReconciler W) where
  cleanup-NoPatch :
      (owner : Object) (May : Object → Type 0) (c : Call) → IsCleanup b owner May c → NoPatch c
  cleanup-NoPatch owner May (patch_object vpa options r) h = absurd h
  cleanup-NoPatch owner May (delete_object vpa r) h = refl
  cleanup-NoPatch owner May (list_objects _ _ _ _ _) h = refl
  cleanup-NoPatch owner May (get_object _ _ _) h = refl
  cleanup-NoPatch owner May _ h = refl

  module _ (gvk : GroupVersionKind) where
    opt_out-IsCleanup :
        (obj : Object) → Emits (IsCleanup b obj (NamesOwner b obj gvk.kind)) (opt_out b obj gvk)
    unfolding opt_out
    opt_out-IsCleanup obj = Emits-bind _ _ (Emits-emit _ tt) λ _.
        Emits-bind _ _ (search emits_rules) λ _. (delete_managed_vpas-NamesOwner b obj gvk.kind).0

    -- What makes a workload one that asks for a VPA: the annotation, naming a profile that exists.
    abbrev pub AsksForVpa : Object → Type 0
    AsksForVpa obj =
        (has_non_empty_annotation (some obj) b.meta.profile_key ≡ true)
        × ((profile : Profile) × (index? b.profiles.entries
                (index obj.annotations b.meta.profile_key)
              ≡ some profile))

    Emits-NoPatch :
        (owner : Object) (May : Object → Type 0) (m : Action W Unit) (w : W)
        → Emits (IsCleanup b owner May) m
        → any is_patch (m w).calls ≡ false
    Emits-NoPatch owner May m w h =
        any-NoPatch _ (All-map _ _ _ (cleanup-NoPatch owner May) (h.at w))

    chosen_profile-patches :
        (obj : Object) (w : W) (selected : String) (chosen : Option Profile)
        → any is_patch (reconcile_profile b obj gvk selected chosen w).calls ≡ true
        → (profile : Profile) × (chosen ≡ some profile)
    unfolding reconcile_profile profile_missing inc_vpa_skipped ◌>>=◌ emit
    chosen_profile-patches obj w selected none h = absurd (ground (arith, h))
    chosen_profile-patches obj w selected (some profile) h = (profile, refl)

    reconcile_workload-patches :
        (obj : Object) (w : W)
        → any is_patch (reconcile_workload b obj gvk w).calls ≡ true
        → AsksForVpa obj
    reconcile_workload-patches obj w h =
        let calls = ap (λ m. any is_patch (m w).calls) (reconcile_workload_lem b obj gvk) in
        let quiet = Emits-NoPatch obj _ _ w (opt_out-IsCleanup obj) in
        let (opted, applied) = then_patches _ _ _ w (sym calls ∙ h) quiet in
        (opted, chosen_profile-patches obj w _ _ applied)

    reconcile_fetched-patches :
        (req : NamespacedName) (found : Result Object) (w : W)
        → any is_patch (reconcile_fetched b gvk req found w).calls ≡ true
        → (workload : Object) × (found ≡ ok workload) × AsksForVpa workload
    unfolding reconcile_fetched
    reconcile_fetched-patches req (ok workload) w h =
        (workload, refl, reconcile_workload-patches workload w h)
    reconcile_fetched-patches req (err e) w h =
        let quiet =
          Emits-NoPatch (gone_workload b gvk req) _ _ w
            (delete_managed_vpas-NamesOwner b (gone_workload b gvk req) gvk.kind).1 in
        absurd (ground (arith, h, quiet))

    -- A workload controller applies a VPA only if Get has answered with a workload whose annotation
    -- names a profile that exists. For a workload that is gone, or that it failed to read, or that has
    -- opted out, or whose profile is missing, it applies none.
    pub reconcile_request-AsksForVpa :
        (req : NamespacedName) (w : W)
        → any is_patch (reconcile_request b gvk req w).calls ≡ true
        → (workload : Object) × ((b.kube_client.get gvk req w).0 ≡ ok workload)
          × AsksForVpa workload
    unfolding reconcile_request ◌>>=◌ get
    reconcile_request-AsksForVpa req w h = reconcile_fetched-patches req _ _ h
