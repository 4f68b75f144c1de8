-- ===== src/System/Again.antt =====
-- A reconciliation of a workload, by internal/controller/base_reconciler.go, that follows a successful one.
use mathlib.Core.Path.{subst}
use autovpa.Common.{
  String, true, false, Option, none, some, ◌≡◌, ◌≢◌, refl, sym, ◌∙◌, inl, inr, index, index?, All,
  All-map, any, Bool-cases, IsMap, entries, List, [], ◌∷◌,
}
use autovpa.Kube.{
  Object, OwnerReference, GroupVersionKind, NamespacedName, Result, ok, err, spec_of,
}
use autovpa.Kube.Laws.{KeepsContent, ComparesOwners, MakesReference}
use autovpa.Config.{Profile}
use autovpa.Effect.{Call, get_object, list_objects, delete_object}
use autovpa.Effect.Counts.{is_delete}
use autovpa.Effect.Emits.{Emits, emits_rules}
use autovpa.Effect.Ends.{Ends, Ends-last}
use autovpa.Effect.Runs.{Runs, Runs-lift, Runs-bind, ok-injective}
use autovpa.Metrics.{inc_vpa_created, inc_vpa_updated, inc_vpa_managed}
use autovpa.Predicates.{has_non_empty_annotation}
use autovpa.Controller.Base.Desired.{
  BaseReconciler, DesiredVpaState, build_desired_vpa, found_or_none, fetch_existing_vpa, create_vpa,
  update_vpa, apply_vpa,
}
use autovpa.Controller.Base.{
  create_desired, update_existing, apply_desired, reconcile_profile, reconcile_workload,
}
use autovpa.Controller.Base.OptIn.{reconcile_workload_lem}
use autovpa.System.{rendered_key, IsReadable}
use autovpa.System.Reads.{IsRead, IsTidy, cleanup-Runs}
use autovpa.System.Owned.{IsOnly}
use autovpa.System.Tidy.{profile-Runs}
use autovpa.System.Calls.{some-injective}
use autovpa.System.Elsewhere.{
  is_obsolete, cleaned, cleaned_and_applied, cleaned_and_applied-cleaned,
}

abbrev KeepsAll : Call → Type 0
KeepsAll c = is_delete c ≡ false

IsRead-KeepsAll : (c : Call) → IsRead c → KeepsAll c
IsRead-KeepsAll (get_object _ _ _) h = refl
IsRead-KeepsAll (list_objects _ _ _ _ _) h = refl
IsRead-KeepsAll (delete_object _ _) h = absurd h
IsRead-KeepsAll _ h = refl

any-KeepsAll : (l : List Call) → All KeepsAll l → any is_delete l ≡ false
any-KeepsAll [] h = refl
any-KeepsAll (c ∷ l) h = rw h.0 (any-KeepsAll l h.1)

module _ {W : Type 0} (b : BaseReconciler W) (obj : Object) (gvk : GroupVersionKind) where
  found_or_none-KeepsAll : (r : Result Object) → Emits KeepsAll (found_or_none b r)
  unfolding found_or_none
  found_or_none-KeepsAll (ok x) = search emits_rules
  found_or_none-KeepsAll (err e) = search emits_rules

  apply_desired-KeepsAll :
      (desired : DesiredVpaState) (found : Option Object)
      → Emits KeepsAll (apply_desired b obj gvk desired found)
  unfolding apply_desired create_desired update_existing create_vpa update_vpa apply_vpa
      inc_vpa_created inc_vpa_updated inc_vpa_managed
  apply_desired-KeepsAll desired none = search emits_rules
  apply_desired-KeepsAll desired (some x) = search emits_rules

  fetch-KeepsAll : (key : NamespacedName) → Emits KeepsAll (fetch_existing_vpa b key)
  unfolding fetch_existing_vpa
  fetch-KeepsAll key = search (emits_rules, found_or_none-KeepsAll)

module _ {W : Type 0} (b : BaseReconciler W) (stored : W → NamespacedName → Option Object)
    (obj : Object) (gvk : GroupVersionKind) (server : IsReadable b.kube_client stored)
    (content : KeepsContent b.platform) (profile : Profile)
    (opted : has_non_empty_annotation (some obj) b.meta.profile_key ≡ true)
    (chosen : index? b.profiles.entries (index obj.annotations b.meta.profile_key)
      ≡ some profile) where
  abbrev pub IsBuilt : DesiredVpaState → Type 0
  IsBuilt desired =
      build_desired_vpa b obj gvk (index obj.annotations b.meta.profile_key) profile ≡ ok desired

  tidied :
      (keep : String) (before : Option Object) (x : Object)
      → cleaned b obj keep before ≡ some x
      → is_obsolete b obj keep x ≡ false
  tidied keep none x h = cc h
  tidied keep (some z) x h = elim (Bool-cases (is_obsolete b obj keep z)) [
    | inl gone ↦ let nothing : none ≡ some x = sym (rw gone refl) ∙ h in cc nothing
    | inr kept ↦
        subst (λ (o : Object). is_obsolete b obj keep o ≡ false)
          (some-injective (sym (rw kept refl) ∙ h)) kept
  ]

  abbrev HasTidied : W → Type 0
  HasTidied w =
      (desired : DesiredVpaState) × IsBuilt desired × IsTidy b stored obj gvk server desired w

  reconcile_profile-HasTidied :
      (w : W)
      → Ends HasTidied
          (reconcile_profile b obj gvk (index obj.annotations b.meta.profile_key) (some profile))
          w
  unfolding reconcile_profile
  reconcile_profile-HasTidied w = Ends-last HasTidied _ _ w (λ desired built a done. (
    desired,
    built,
    λ k x other h. tidied desired.name (stored w k) x (
        sym (
          cleaned_and_applied-cleaned b stored server.fresh server.complete server.consistent
            content server.answers obj gvk desired k other w a done)
        ∙ h),
  ))

  first-HasTidied :
      (w : W)
      → (reconcile_workload b obj gvk w).result ≡ ok tt
      → HasTidied (reconcile_workload b obj gvk w).world
  first-HasTidied w =
      rw (reconcile_workload_lem b obj gvk, opted, chosen) (reconcile_profile-HasTidied w tt)

  tidy-KeepsAll :
      (desired : DesiredVpaState) (v : W)
      → IsTidy b stored obj gvk server desired v
      → Runs KeepsAll (λ a w'. Unit) (cleaned_and_applied b obj gvk desired) v
  tidy-KeepsAll desired v tidy =
      let cleans = cleanup-Runs b stored obj gvk server desired (λ w. Unit) (λ w h. tt) v tidy tt in
      Runs-bind (λ a w'. Unit) (λ a w'. Unit) _ _ v
        (record {
          calls = All-map IsRead KeepsAll _ IsRead-KeepsAll cleans.calls;
          ends = λ a e. tt;
        })
        (λ a w' h.
          Runs-bind (λ found w''. Unit) (λ a w''. Unit) _ _ w'
            (record {
              calls = (fetch-KeepsAll b obj gvk (rendered_key obj desired)).at w';
              ends = λ found e. tt;
            })
            (λ found w'' h'. record {
              calls = (apply_desired-KeepsAll b obj gvk desired found).at w'';
              ends = λ a e. tt;
            }))

  reconcile_profile-KeepsAll :
      (v : W)
      → HasTidied v
      → Runs KeepsAll
          (λ a w'. Unit)
          (reconcile_profile b obj gvk (index obj.annotations b.meta.profile_key) (some profile))
          v
  unfolding reconcile_profile
  reconcile_profile-KeepsAll v (desired, built, tidy) =
      Runs-bind (λ d w'. IsBuilt d × (w' ≡ v)) (λ a w'. Unit) _ _ v (Runs-lift _ v)
        (λ d w' (e, same).
          let it : d ≡ desired = ok-injective (sym e ∙ built) in
          rw (it, same) (tidy-KeepsAll desired v tidy))

  -- After a reconciliation of a workload that is opted in, with a profile that exists, has succeeded,
  -- the next one of the same workload deletes nothing, whatever comes of it: the first has left no
  -- obsolete VPA behind, and what it has applied is not obsolete itself. The API server must meet its
  -- laws for reads, lists and deletes, and an apply must leave the VPAs of other names alone; nothing
  -- is assumed of what an apply stores. SetControllerReference must keep what is not an owner
  -- reference.
  pub reconcile_workload_again_deletes_nothing :
      (w : W)
      → (reconcile_workload b obj gvk w).result ≡ ok tt
      → any is_delete (reconcile_workload b obj gvk (reconcile_workload b obj gvk w).world).calls
        ≡ false
  reconcile_workload_again_deletes_nothing w done =
      any-KeepsAll _ (second _ (first-HasTidied w done))
    where
      second : (v : W) → HasTidied v → All KeepsAll (reconcile_workload b obj gvk v).calls
      second v tidy =
          rw (reconcile_workload_lem b obj gvk, opted, chosen)
            (reconcile_profile-KeepsAll v tidy).calls

  module _ (distinct : b.meta.managed_label ≢ b.meta.profile_key)
      (compares : ComparesOwners b.platform) (ref : OwnerReference)
      (makes : MakesReference b.platform obj gvk ref) where
    -- The VPA that the profile asks for is stored, and nobody else has written its spec, its two labels
    -- or its owner references.
    pub record IsUndisturbed (desired : DesiredVpaState) (y : Object) (w : W) : Type 0 where
      pub at : stored w (rendered_key obj desired) ≡ some y
      pub once : IsMap (entries y.labels)
      pub spec : b.platform.deep_equal (spec_of y.body) desired.spec ≡ true
      pub managed : index? y.labels b.meta.managed_label ≡ some "true"
      pub profiled : index? y.labels b.meta.profile_key ≡ some desired.profile
      pub owned : IsOnly ref y.owner_references

    reads_only :
        (v : W)
        → HasTidied v
        → (desired : DesiredVpaState) (y : Object) → IsBuilt desired
        → IsUndisturbed desired y v
        → All IsRead (reconcile_workload b obj gvk v).calls
    reads_only v (d, made, tidy) desired y built h =
        let same : d ≡ desired = ok-injective (sym made ∙ built) in
        let tidy' = subst (λ (x : DesiredVpaState). IsTidy b stored obj gvk server x v) same tidy in
        rw (reconcile_workload_lem b obj gvk, opted, chosen)
          (profile-Runs b stored obj gvk server distinct content compares ref makes
            (index obj.annotations b.meta.profile_key) profile desired built y h.once h.spec
            h.managed h.profiled h.owned v tidy' h.at).calls

    -- After a success, the next reconciliation makes no call but reads if the VPA is undisturbed then.
    reconcile_workload_again-IsRead :
        (w : W)
        → (reconcile_workload b obj gvk w).result ≡ ok tt
        → (desired : DesiredVpaState) (y : Object) → IsBuilt desired
        → IsUndisturbed desired y (reconcile_workload b obj gvk w).world
        → All IsRead (reconcile_workload b obj gvk (reconcile_workload b obj gvk w).world).calls
    reconcile_workload_again-IsRead w done = reads_only _ (first-HasTidied w done)
