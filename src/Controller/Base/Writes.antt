-- ===== src/Controller/Base/Writes.antt =====
-- What ReconcileWorkload of internal/controller/base_reconciler.go writes.
use autovpa.Common.{
  String, true, Option, none, some, arith, ◌≡◌, ◌≢◌, refl, index?, index, inr, ◌⊎◌,
}
use autovpa.Kube.{Object, GroupVersionKind, NamespacedName, Result, ok, err}
use autovpa.Kube.Laws.{KeepsContent, AnswersKey}
use autovpa.Config.{Profile}
use autovpa.Effect.{Call, delete_object, patch_object, ◌>>=◌, get}
use autovpa.Effect.Emits.{
  Emits, emits_rules, Emits-bind, Emits-bind-lift, Emits-bind-post, Emits-if, Emits-weaken,
  Emits-attempt, Emits-get, Emits-emit,
}
use autovpa.Controller.Base.Built.{build_desired_vpa-IsDesired}
use autovpa.Controller.Base.OptIn.{reconcile_workload_lem}
use autovpa.Controller.Base.Desired.{BaseReconciler, found_or_none, fetch_existing_vpa}
use autovpa.Controller.Base.{opt_out, profile_missing, reconcile_profile, reconcile_workload}
use autovpa.Controller.Base.Safety.{
  IsCleanup, NamesOwner, delete_managed_vpas-NamesOwner, delete_obsolete_managed_vpas-Emits,
}
use autovpa.Controller.Base.OwnWrites.{
  IsOwnWrite, WritesOwn, cleanup-WritesOwn, apply_desired-Emits,
}

module _ {W : Type 0} (b : BaseReconciler W) (obj : Object) (gvk : GroupVersionKind) where
  -- What Get found is named by the key.
  abbrev AnswersNamed : NamespacedName → Option Object → Type 0
  AnswersNamed key found =
      (existing : Object)
      → found ≡ some existing
      → (existing.name ≡ key.name) × (existing.namespace ≡ key.namespace)

  found_or_none-named :
      (key : NamespacedName) (r : Result Object)
      → ((existing : Object)
          → r ≡ ok existing
          → (existing.name ≡ key.name) × (existing.namespace ≡ key.namespace))
      → (w : W) (found : Option Object) → (found_or_none b r w).result ≡ ok found
      → AnswersNamed key found
  unfolding found_or_none
  found_or_none-named key (ok vpa) named w found e existing same = named existing (cc)
  found_or_none-named key (err e) named w found h existing same = absurd (ground arith)

  found_or_none-Emits :
      (selected : String) (profile : Profile) (r : Result Object)
      → Emits (WritesOwn b obj gvk selected profile) (found_or_none b r)
  unfolding found_or_none
  found_or_none-Emits selected profile (ok _) = search emits_rules
  found_or_none-Emits selected profile (err _) = search emits_rules

  fetch_existing_vpa-Emits :
      (selected : String) (profile : Profile) (key : NamespacedName)
      → Emits (WritesOwn b obj gvk selected profile) (fetch_existing_vpa b key)
  unfolding fetch_existing_vpa
  fetch_existing_vpa-Emits selected profile key =
      Emits-bind _ _ (Emits-attempt _ (Emits-get b.kube_client _ key (λ r. tt)))
        (found_or_none-Emits selected profile)

  fetched-named :
      (key : NamespacedName)
      → AnswersKey b.kube_client
      → (w : W) (found : Option Object) → (fetch_existing_vpa b key w).result ≡ ok found
      → AnswersNamed key found
  unfolding fetch_existing_vpa ◌>>=◌ get
  fetched-named key answers w found h =
      found_or_none-named key _ (λ existing e. answers.same_key _ key w existing e) _ found h

  reconcile_profile-Emits :
      (selected : String) (profile : Profile)
      → b.meta.managed_label ≢ b.meta.profile_key
      → KeepsContent b.platform
      → AnswersKey b.kube_client
      → Emits
          (WritesOwn b obj gvk selected profile)
          (reconcile_profile b obj gvk selected (some profile))
  unfolding reconcile_profile
  reconcile_profile-Emits selected profile distinct content answers =
      Emits-bind-lift _ _ λ desired built.
        let ready = build_desired_vpa-IsDesired b obj gvk selected profile desired built in
        let key : NamespacedName = record { name = desired.name; namespace = obj.namespace } in
        Emits-bind _ _
          (Emits-weaken (cleanup-WritesOwn b obj gvk selected desired.name profile)
            (delete_obsolete_managed_vpas-Emits b obj gvk.kind desired.name))
          λ _.
            Emits-bind-post (AnswersNamed key) _ _ (fetch_existing_vpa-Emits selected profile key)
              (fetched-named key answers)
              (apply_desired-Emits b obj gvk selected profile distinct content answers desired
                ready)

  -- The same, with the profile that the workload's annotation names.
  abbrev pub WritesAnnotated : Call → Type 0
  WritesAnnotated (patch_object vpa options r) =
      (profile : Profile) × (index? b.profiles.entries (index obj.annotations b.meta.profile_key)
        ≡ some profile)
      × IsOwnWrite b obj gvk (index obj.annotations b.meta.profile_key) profile vpa options
  WritesAnnotated (delete_object vpa r) =
      (b.platform.is_controlled_by vpa obj ≡ true) ⊎ NamesOwner b obj gvk.kind vpa
  WritesAnnotated _ = Unit

  own-WritesAnnotated :
      (profile : Profile)
      → index? b.profiles.entries (index obj.annotations b.meta.profile_key) ≡ some profile
      → (c : Call) → WritesOwn b obj gvk (index obj.annotations b.meta.profile_key) profile c
      → WritesAnnotated c
  own-WritesAnnotated profile found (patch_object vpa options r) h = (profile, found, h)
  own-WritesAnnotated profile found (delete_object vpa r) h = h
  own-WritesAnnotated profile found _ h = tt

  opt_out-WritesAnnotated :
      (c : Call) → IsCleanup b obj (NamesOwner b obj gvk.kind) c → WritesAnnotated c
  opt_out-WritesAnnotated (patch_object vpa options r) h = absurd h
  opt_out-WritesAnnotated (delete_object vpa r) h = inr h
  opt_out-WritesAnnotated _ h = tt

  opt_out-Emits : Emits WritesAnnotated (opt_out b obj gvk)
  unfolding opt_out
  opt_out-Emits = Emits-bind _ _ (Emits-emit _ tt) λ _.
      Emits-bind _ _ (search emits_rules)
        λ _. Emits-weaken opt_out-WritesAnnotated (delete_managed_vpas-NamesOwner b obj gvk.kind).0

  profile_missing-Emits :
      (selected : String) → Emits WritesAnnotated (profile_missing b obj gvk selected)
  unfolding profile_missing
  profile_missing-Emits selected = search emits_rules

  chosen_profile-Emits :
      b.meta.managed_label ≢ b.meta.profile_key
      → KeepsContent b.platform
      → AnswersKey b.kube_client
      → (chosen : Option Profile)
      → index? b.profiles.entries (index obj.annotations b.meta.profile_key) ≡ chosen
      → Emits WritesAnnotated
          (reconcile_profile b obj gvk (index obj.annotations b.meta.profile_key) chosen)
  chosen_profile-Emits distinct content answers none found =
      unfold reconcile_profile in profile_missing-Emits _
  chosen_profile-Emits distinct content answers (some profile) found =
      Emits-weaken (own-WritesAnnotated profile found)
        (reconcile_profile-Emits _ profile distinct content answers)

  -- Whatever the client does, as long as Get answers with the object of its key: a reconciliation of a
  -- workload applies only objects with the name, the namespace, the labels and the spec that the
  -- profile of its annotation gives, as field manager autovpa and with force, and deletes only VPAs
  -- that the workload controls or that have an owner reference with its kind and name. The label keys
  -- must differ, and SetControllerReference must keep what is not an owner reference.
  pub reconcile_workload-WritesAnnotated :
      b.meta.managed_label ≢ b.meta.profile_key
      → KeepsContent b.platform
      → AnswersKey b.kube_client
      → Emits WritesAnnotated (reconcile_workload b obj gvk)
  reconcile_workload-WritesAnnotated distinct content answers = rw reconcile_workload_lem (
      Emits-if _ _ _ (λ _. chosen_profile-Emits distinct content answers _ refl)
        (λ _. opt_out-Emits))
