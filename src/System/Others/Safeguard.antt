-- ===== src/System/Others/Safeguard.antt =====
-- The VPA controller, internal/controller/vpa_reconciler.go, leaves a VPA whose owner is there.
use mathlib.Core.Path.{subst}
use autovpa.Common.{
  ◌⊎◌, String, false, Option, none, some, [], ◌∷◌, ◌≡◌, ◌≢◌, refl, sym, ap, ◌∙◌, Bool-cases, inl,
  inr, ◌==◌, eq_iff,
}
use autovpa.Kube.{
  Object, OwnerReference, GroupVersionKind, NamespacedName, Result, ok, err, is_not_found,
}
use autovpa.Kube.Laws.{MakesReference}
use autovpa.Effect.{emit, get, ◌>>=◌}
use autovpa.Controller.{vpa_gvk}
use autovpa.Controller.Base.Desired.{BaseReconciler}
use autovpa.Controller.Vpa.{
  Owner, supported, resolve_owner_gvk, skip_unmanaged, existing_or_none, fetch_existing_vpa,
  or_count_error, check_owner, fetch_owner, check_managed, check_existing, reconcile,
}
use autovpa.Controller.Vpa.Decision.{owner_gone}
use autovpa.System.{key_of, IsApiServer}
use autovpa.System.Calls.{some-injective, Still, get-Still, delete-Still}
use autovpa.System.VpaCalls.{check_managed-Leaves}
use autovpa.Metrics.{inc_reconcile_errors}
use autovpa.System.Owned.{resolve_owner_gvk-ref}
use autovpa.System.Others.{safeguard, IsPresentFor}

module _ {W : Type 0} (b : BaseReconciler W) (stored : W → NamespacedName → Option Object)
    (o owner : Object) (gvk : GroupVersionKind)
    (server : IsApiServer b.kube_client b.platform stored) (ref : OwnerReference)
    (makes : MakesReference b.platform owner gvk ref) (only : o.owner_references ≡ ref ∷ [])
    (inside : o.namespace ≡ owner.namespace) (handled : supported gvk.kind ≡ some gvk) where
  key-cases : (x : Object) → (key_of x ≡ key_of o) ⊎ (key_of x ≢ key_of o)
  key-cases x = elim (Bool-cases (x.name == o.name)) [
    | inl name ↦ elim (Bool-cases (x.namespace == o.namespace)) [
      | inl namespace ↦
          let e : x.name ≡ o.name = (eq_iff x.name o.name).0 name in
          let f : x.namespace ≡ o.namespace = (eq_iff x.namespace o.namespace).0 namespace in
          inl (cc (e, f))
      | inr namespace ↦ inr (λ same.
          let e =
            (eq_iff x.namespace o.namespace).1 (ap (λ (n : NamespacedName). n.namespace) same) in
          cc (e, namespace))
    ]
    | inr name ↦ inr (λ same.
        let e = (eq_iff x.name o.name).1 (ap (λ (n : NamespacedName). n.name) same) in cc (e, name))
  ]

  abbrev Kept : W → Type 0
  Kept = Still b.kube_client stored server.fresh (key_of o) o

  check_owner-Kept :
      (who : Owner) (r : Result Object) (w : W)
      → owner_gone (safeguard b stored o owner gvk) r ≡ false
      → Kept w
      → Kept (check_owner (safeguard b stored o owner gvk) o who r w).world
  unfolding check_owner inc_reconcile_errors emit ◌>>=◌
  check_owner-Kept who (ok _) w there h = h
  check_owner-Kept who (err e) w there h = rw there h

  check_managed-Kept :
      (who : Option Owner) (w : W)
      → who ≡ some (record { gvk = gvk; name = owner.name })
      → owner_gone (safeguard b stored o owner gvk) (b.kube_client.get gvk (key_of owner) w).0
        ≡ false
      → Kept w
      → Kept (check_managed (safeguard b stored o owner gvk) o who w).world
  unfolding check_managed fetch_owner get ◌>>=◌
  check_managed-Kept none w e there h = cc e
  check_managed-Kept (some who) w e there h =
      let it : who ≡ record { gvk = gvk; name = owner.name } = cc e in
      let asks : Owner → Result Object =
        λ x. (b.kube_client.get x.gvk (record { namespace = o.namespace; name = x.name }) w).0 in
      let same : asks who ≡ (b.kube_client.get gvk (key_of owner) w).0 =
        ap asks it
        ∙ ap
            (λ (ns : String).
              (b.kube_client.get gvk (record { namespace = ns; name = owner.name }) w).0)
            inside in
      check_owner-Kept who _ _ (ap (owner_gone (safeguard b stored o owner gvk)) same ∙ there)
        (server.fresh.get_keeps _ _ (key_of o) w ∙ h)

  -- What is found under the key of `o` is `o`.
  check_existing-Kept :
      (x : Object) (w : W)
      → (key_of x ≡ key_of o → x ≡ o)
      → owner_gone (safeguard b stored o owner gvk) (b.kube_client.get gvk (key_of owner) w).0
        ≡ false
      → Kept w
      → Kept (check_existing (safeguard b stored o owner gvk) (some x) w).world
  unfolding check_existing
  check_existing-Kept x w same there h =
      elim (Bool-cases (skip_unmanaged (safeguard b stored o owner gvk) x)) [
        | inl skipped ↦ rw skipped h
        | inr managed ↦ rw managed (elim (key-cases x) [
          | inl e ↦
              let it : o ≡ x = sym (same e) in
              subst
                (λ (y : Object).
                  Kept
                    (check_managed (safeguard b stored o owner gvk) y
                      (resolve_owner_gvk y.owner_references) w).world)
                it
                (check_managed-Kept (resolve_owner_gvk o.owner_references) w
                  (ap resolve_owner_gvk only
                    ∙ resolve_owner_gvk-ref b.platform owner gvk ref makes handled)
                  there h)
          | inr other ↦
              (check_managed-Leaves (safeguard b stored o owner gvk) Kept (λ y. key_of y ≢ key_of o)
                  (delete-Still b.kube_client stored server.fresh (key_of o) o)
                  (get-Still b.kube_client stored server.fresh (key_of o) o) x
                  (resolve_owner_gvk x.owner_references) other).state
                w h
        ])
      ]

  pub reconcile-Kept :
      (req : NamespacedName) (w : W)
      → IsPresentFor b stored o owner gvk req w
      → Kept w
      → Kept (reconcile (safeguard b stored o owner gvk) req w).world
  unfolding reconcile fetch_existing_vpa existing_or_none or_count_error inc_reconcile_errors emit
      get ◌>>=◌
  reconcile-Kept req w there h = by_answer (b.kube_client.get vpa_gvk req w).0 refl
    where
      after : Kept (b.kube_client.get vpa_gvk req w).1
      after = server.fresh.get_keeps vpa_gvk req (key_of o) w ∙ h

      found :
          (x : Object) → (b.kube_client.get vpa_gvk req w).0 ≡ ok x → key_of x ≡ key_of o → x ≡ o
      found x e same =
          let at = server.fresh.get_fresh req w x e in
          let key = server.consistent.keyed w req x at in
          some-injective (sym at ∙ (ap (stored w) (sym key ∙ same) ∙ h))

      by_answer :
          (r : Result Object)
          → (b.kube_client.get vpa_gvk req w).0 ≡ r
          → Kept (reconcile (safeguard b stored o owner gvk) req w).world
      by_answer (ok x) e = rw e (check_existing-Kept x _ (found x e) there after)
      by_answer (err er) e = elim (Bool-cases (is_not_found er)) [
        | inl missing ↦ rw (e, missing) after
        | inr other ↦ rw (e, other) after
      ]
