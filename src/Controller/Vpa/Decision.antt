-- ===== src/Controller/Vpa/Decision.antt =====
-- When the reconciler of internal/controller/vpa_reconciler.go deletes, and how it reports errors.
use autovpa.Common.{
  String, Bool, true, false, not, Option, none, some, [], ◌∷◌, ◌==◌, ◌≡◌, refl, any, index, index?,
  Bool-cases, inl, inr, Map, if◌then◌else◌,
}
use autovpa.Kube.{Object, NamespacedName, is_not_found, Result, ok, err}
use autovpa.Effect.{get_object, Action, attempt, after_calls, ◌>>=◌, emit, get, delete}
use autovpa.Effect.Counts.{is_delete}
use autovpa.Predicates.{has_true_label}
use autovpa.Controller.{vpa_gvk}
use autovpa.Controller.Vpa.{
  VpaReconciler, Owner, resolve_owner_gvk, skip_unmanaged, fetch_owner, fetch_existing_vpa,
  existing_or_none, or_count_error, delete_orphan, delete_owner_gone, check_owner, check_managed,
  check_existing, reconcile,
}

abbrev pub is_err : {A : Type 0} → Result A → Bool
is_err (ok _) = false
is_err (err _) = true

module _ {W : Type 0} (r : VpaReconciler W) where
  -- The answer to the question for the owner.
  abbrev pub owner_gone : Result Object → Bool
  owner_gone (ok _) = false
  owner_gone (err e) = is_not_found e

  -- A VPA without a supported controller, or with one that the client does not find.
  abbrev pub invalid_owner : Object → W → Bool
  invalid_owner vpa w = elim (resolve_owner_gvk vpa.owner_references) [
    | none ↦ true
    | some owner ↦
        owner_gone
          (r.kube_client.get owner.gvk (record { namespace = vpa.namespace; name = owner.name })
            w).0
  ]

  -- The whole decision, on what the client answers.
  abbrev pub should_delete : NamespacedName → W → Bool
  should_delete req w =
      let (found, w') = r.kube_client.get vpa_gvk req w in
      elim found [
        | err e ↦ false
        | ok vpa ↦
            if has_true_label (some vpa) r.meta.managed_label then invalid_owner vpa w' else false
      ]

  -- The VPA controller and its predicate agree on what is managed.
  pub skip_unmanaged_lem :
      (vpa : Object) → skip_unmanaged r vpa ≡ not (has_true_label (some vpa) r.meta.managed_label)
  unfolding skip_unmanaged has_true_label index index?
  skip_unmanaged_lem vpa = by_labels vpa.labels
    where
      by_labels :
          (labels : Map String)
          → not (index labels r.meta.managed_label == "true")
            ≡ not (elim labels [
              | none ↦ false
              | some l ↦ index (some l) r.meta.managed_label == "true"
            ])
      by_labels none = refl
      by_labels (some l) = refl

  delete_orphan-deletes :
      (vpa : Object) (w : W) → any is_delete (delete_orphan r vpa w).calls ≡ true
  unfolding delete_orphan ◌>>=◌ emit delete
  delete_orphan-deletes vpa w = refl

  delete_owner_gone-deletes :
      (vpa : Object) (owner : Owner) (w : W)
      → any is_delete (delete_owner_gone r vpa owner w).calls ≡ true
  unfolding delete_owner_gone ◌>>=◌ emit delete
  delete_owner_gone-deletes vpa owner w = refl

  check_owner-deletes :
      (vpa : Object) (owner : Owner) (found : Result Object) (w : W)
      → any is_delete (check_owner r vpa owner found w).calls ≡ owner_gone found
  unfolding check_owner ◌>>=◌ emit
  check_owner-deletes vpa owner (ok _) w = refl
  check_owner-deletes vpa owner (err e) w = elim (Bool-cases (is_not_found e)) [
    | inl gone ↦ rw gone (delete_owner_gone-deletes vpa owner w)
    | inr other ↦ rw other
  ]

  check_managed-deletes :
      (vpa : Object) (owner : Option Owner) (w : W)
      → any is_delete (check_managed r vpa owner w).calls ≡ elim owner [
        | none ↦ true
        | some o ↦
            owner_gone
              (r.kube_client.get o.gvk (record { namespace = vpa.namespace; name = o.name }) w).0
      ]
  unfolding check_managed ◌>>=◌ get fetch_owner
  check_managed-deletes vpa none w = delete_orphan-deletes vpa w
  check_managed-deletes vpa (some o) w = check_owner-deletes vpa o _ _

  check_existing-deletes :
      (vpa : Object) (w : W)
      → any is_delete (check_existing r (some vpa) w).calls
        ≡ (if has_true_label (some vpa) r.meta.managed_label then invalid_owner vpa w else false)
  unfolding check_existing
  check_existing-deletes vpa w =
      elim (Bool-cases (has_true_label (some vpa) r.meta.managed_label)) [
        | inl managed ↦ rw (skip_unmanaged_lem, managed) (check_managed-deletes vpa _ w)
        | inr unmanaged ↦ rw (skip_unmanaged_lem, unmanaged)
      ]

  -- What follows the answer to the first Get.
  abbrev pub answered : Result Object → Action W Unit
  answered found = do
    fetched ← attempt (existing_or_none r found)
    vpa ← or_count_error r "get" fetched
    check_existing r vpa

  pub reconcile_lem :
      (req : NamespacedName) (w : W)
      → reconcile r req w
        ≡ after_calls
            (get_object vpa_gvk req (r.kube_client.get vpa_gvk req w).0 ∷ [])
            (answered (r.kube_client.get vpa_gvk req w).0 (r.kube_client.get vpa_gvk req w).1)
  unfolding reconcile fetch_existing_vpa ◌>>=◌ get
  reconcile_lem req w = refl

  answered-deletes :
      (found : Result Object) (w : W)
      → any is_delete (answered found w).calls ≡ elim found [
        | err e ↦ false
        | ok vpa ↦
            if has_true_label (some vpa) r.meta.managed_label then invalid_owner vpa w else false
      ]
  unfolding existing_or_none or_count_error ◌>>=◌ emit
  answered-deletes (ok vpa) w = check_existing-deletes vpa w
  answered-deletes (err e) w = elim (Bool-cases (is_not_found e)) [
    | inl gone ↦ rw gone (unfold check_existing in refl)
    | inr other ↦ rw other
  ]

  -- The VPA controller calls Delete exactly when the VPA is found, carries the managed label, and has
  -- no controller of a supported kind or one that the client does not find. Any other answer of the
  -- client, an error included, deletes nothing.
  pub is_delete-reconcile :
      (req : NamespacedName) (w : W) → any is_delete (reconcile r req w).calls ≡ should_delete req w
  is_delete-reconcile req w = rw reconcile_lem (answered-deletes _ _)
