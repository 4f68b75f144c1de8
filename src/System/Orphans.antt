-- ===== src/System/Orphans.antt =====
-- What the VPA reconciler of internal/controller/vpa_reconciler.go makes of what is stored.
use mathlib.Core.Path.{subst}
use autovpa.Common.{
  Bool, true, Option, none, some, ◌≡◌, ◌≢◌, refl, sym, ap, ◌∙◌, inl, inr, Bool-cases, if◌then◌else◌,
}
use autovpa.Kube.{Object, GroupVersionKind, NamespacedName, Error, Result, ok, err, is_not_found}
use autovpa.Effect.{pure, throw, ◌>>=◌, ◌>>◌, emit, get, delete}
use autovpa.Effect.Keeps.{
  Keeps, OfResult, Anything, Keeps-pure, Keeps-throw, Keeps-attempt, Keeps-if, Keeps-bind,
  Keeps-any,
}
use autovpa.Effect.Ends.{Ends}
use autovpa.Predicates.{has_true_label}
use autovpa.Metrics.{inc_reconcile_errors}
use autovpa.Controller.{vpa_gvk}
use autovpa.Controller.Base.Desired.{BaseReconciler}
use autovpa.Controller.Vpa.{
  Owner, skip_unmanaged, fetch_owner, existing_or_none, fetch_existing_vpa, or_count_error,
  check_owner, check_managed, check_existing, reconcile, resolve_owner_gvk,
}
use autovpa.Controller.Vpa.Decision.{owner_gone, invalid_owner, skip_unmanaged_lem, answered}
use autovpa.System.{key_of, IsApiServer, vpa_reconciler_of}
use autovpa.System.VpaDeletes.{delete_orphan-IsGone, delete_owner_gone-IsGone}
use autovpa.System.VpaCalls.{or_count_error-Leaves, check_managed-Leaves}
use autovpa.System.Gone.{Gone}

module _ {W : Type 0} (b : BaseReconciler W) where
  -- What the VPA reconciler leaves of what is stored under the key, when it asks for owners in the
  -- state `w`.
  abbrev pub safeguarded : W → Option Object → Option Object
  safeguarded w none = none
  safeguarded w (some x) =
      if has_true_label (some x) b.meta.managed_label
      then (if invalid_owner (vpa_reconciler_of b) x w then none else some x)
      else some x

  module _ (stored : W → NamespacedName → Option Object) (req : NamespacedName) where
    -- The VPA of the request is gone if it should not be, and no other VPA has changed.
    pub record IsSafeguarded (w w' : W) : Type 0 where
      pub asked_for : stored w' req ≡ safeguarded (b.kube_client.get vpa_gvk req w).1 (stored w req)
      pub elsewhere : (k : NamespacedName) → req ≢ k → stored w' k ≡ stored w k

module _ {W : Type 0} (b : BaseReconciler W) (stored : W → NamespacedName → Option Object)
    (server : IsApiServer b.kube_client b.platform stored) (req : NamespacedName) where
  module _ (k : NamespacedName) (s : Option Object) (apart : req ≢ k) where
    -- Under another key nothing changes.
    abbrev Same : W → Type 0
    Same w = stored w k ≡ s

    delete-Same : (x : Object) → key_of x ≡ req → Keeps Same Anything (delete b.kube_client x)
    unfolding delete
    delete-Same x same = record {
      state = λ w h. server.fresh.delete_only x k w (λ e. apart (sym same ∙ e)) ∙ h;
      answer = λ w h a e. tt;
    }

    get-Same :
        (gvk : GroupVersionKind) (key : NamespacedName)
        → Keeps Same (λ (x : Object). key_of x ≡ key) (get b.kube_client gvk key)
    unfolding get
    get-Same gvk key = record {
      state = λ w h. server.fresh.get_keeps gvk key k w ∙ h;
      answer = λ w h x e. let c = server.answers.same_key gvk key w x e in cc (c.0, c.1);
    }

    abbrev HasKey : Option Object → Type 0
    HasKey none = Unit
    HasKey (some x) = key_of x ≡ req

    get-Anything :
        (gvk : GroupVersionKind) (key : NamespacedName)
        → Keeps Same Anything (get b.kube_client gvk key)
    get-Anything gvk key = Keeps-any (get-Same gvk key)

    check_existing-Same :
        (found : Option Object)
        → HasKey found
        → Keeps Same Anything (check_existing (vpa_reconciler_of b) found)
    unfolding check_existing vpa_reconciler_of
    check_existing-Same none h = Keeps-pure tt tt
    check_existing-Same (some x) h =
        Keeps-if (skip_unmanaged (vpa_reconciler_of b) x) _ _ (λ _. Keeps-pure tt tt)
          (λ _.
            check_managed-Leaves (vpa_reconciler_of b) Same (λ y. key_of y ≡ req) delete-Same
              get-Anything x (resolve_owner_gvk x.owner_references) h)

    existing_or_none-Same :
        (r : Result Object)
        → OfResult (λ (x : Object). key_of x ≡ req) r
        → Keeps Same HasKey (existing_or_none (vpa_reconciler_of b) r)
    unfolding existing_or_none
    existing_or_none-Same (ok x) q = Keeps-pure _ q
    existing_or_none-Same (err e) q =
        Keeps-if (is_not_found e) (pure none) (throw e) (λ _. Keeps-pure none tt)
          (λ _. Keeps-throw e)

    pub reconcile-Same : Keeps Same Anything (reconcile (vpa_reconciler_of b) req)
    unfolding reconcile fetch_existing_vpa vpa_reconciler_of
    reconcile-Same =
        Keeps-bind _ _
          (Keeps-attempt _
            (Keeps-bind _ _ (Keeps-attempt _ (get-Same vpa_gvk req)) existing_or_none-Same))
          (λ fetched q.
            Keeps-bind _ _
              (or_count_error-Leaves (vpa_reconciler_of b) Same (λ y. key_of y ≡ req) delete-Same
                get-Anything "get" fetched q)
              check_existing-Same)

  module _ (x : Object) (at : key_of x ≡ req) where
    abbrev IsGone : W → Type 0
    IsGone = Gone b stored server.fresh server.complete x

    -- What is stored after the answer to the question for the owner.
    abbrev Kept : Bool → W → Type 0
    Kept missing w = stored w req ≡ (if missing then none else some x)

    IsGone-Kept : (w : W) → IsGone w → Kept true w
    IsGone-Kept w h = ap (stored w) (sym at) ∙ h

    failed_fetch :
        (e : Error) (w : W) (a : Unit {0})
        → ((inc_reconcile_errors "vpa" vpa_gvk.kind "fetch_owner" >> throw {A = Unit {0}} e)
            w).result
          ≢ ok a
    unfolding inc_reconcile_errors ◌>>=◌ emit
    failed_fetch e w a h = cc h

    check_owner-Kept :
        (owner : Owner) (r : Result Object) (w : W)
        → stored w req ≡ some x
        → Ends
            (Kept (owner_gone (vpa_reconciler_of b) r))
            (check_owner (vpa_reconciler_of b) x owner r)
            w
    unfolding check_owner
    check_owner-Kept owner (ok _) w h = λ a e. h
    check_owner-Kept owner (err e) w h = elim (Bool-cases (is_not_found e)) [
      | inl missing ↦
          rw missing
            (λ a done. IsGone-Kept _ (delete_owner_gone-IsGone b stored server x owner w a done))
      | inr other ↦ rw other (λ a failed. absurd (failed_fetch e w a failed))
    ]

    check_managed-Kept :
        (o : Option Owner) (w : W)
        → stored w req ≡ some x
        → Ends
            (Kept (elim o [
              | none ↦ true
              | some owner ↦
                  owner_gone
                    (vpa_reconciler_of b)
                    (b.kube_client.get owner.gvk
                      (record { namespace = x.namespace; name = owner.name })
                      w).0
            ]))
            (check_managed (vpa_reconciler_of b) x o)
            w
    unfolding check_managed fetch_owner vpa_reconciler_of ◌>>=◌ get
    check_managed-Kept none w h =
        λ a done. IsGone-Kept _ (delete_orphan-IsGone b stored server x w a done)
    check_managed-Kept (some owner) w h =
        let key : NamespacedName = record { namespace = x.namespace; name = owner.name } in
        check_owner-Kept owner (b.kube_client.get owner.gvk key w).0 _
          (server.fresh.get_keeps owner.gvk key req w ∙ h)

    check_existing-Kept :
        (w : W)
        → stored w req ≡ some x
        → Ends
            (λ w'. stored w' req ≡ safeguarded b w (some x))
            (check_existing (vpa_reconciler_of b) (some x))
            w
    unfolding check_existing vpa_reconciler_of
    check_existing-Kept w h = elim (Bool-cases (has_true_label (some x) b.meta.managed_label)) [
      | inl managed ↦
          rw (skip_unmanaged_lem (vpa_reconciler_of b), managed)
            (check_managed-Kept (resolve_owner_gvk x.owner_references) w h)
      | inr unmanaged ↦ rw (skip_unmanaged_lem (vpa_reconciler_of b), unmanaged) (λ a e. h)
    ]

  module _ (w : W) where
    abbrev asked : W
    asked = (b.kube_client.get vpa_gvk req w).1

    answered-Kept :
        (r : Result Object)
        → (b.kube_client.get vpa_gvk req w).0 ≡ r
        → Ends
            (λ w'. stored w' req ≡ safeguarded b asked (stored w req))
            (answered (vpa_reconciler_of b) r)
            asked
    unfolding existing_or_none or_count_error ◌>>=◌ vpa_reconciler_of inc_reconcile_errors emit
    answered-Kept (ok x) got =
        let here = server.fresh.get_fresh req w x got in
        let still = server.fresh.get_keeps vpa_gvk req req w ∙ here in
        subst
          (λ s.
            Ends (λ w'. stored w' req ≡ safeguarded b asked s)
              (answered (vpa_reconciler_of b) (ok x)) asked)
          (sym here) (check_existing-Kept x (server.consistent.keyed w req x here) asked still)
    answered-Kept (err e) got = elim (Bool-cases (is_not_found e)) [
      | inl missing ↦
          let nothing = server.consistent.get_missing req w e got missing in
          rw missing (
            unfold check_existing in
            λ a done.
              server.fresh.get_keeps vpa_gvk req req w
              ∙ (nothing ∙ sym (ap (safeguarded b asked) nothing)))
      | inr other ↦ rw other (λ a failed. cc failed)
    ]

  -- If a reconciliation by the VPA reconciler succeeds, then what is stored under the key of the
  -- request is what was stored there before, except that a VPA with the managed label is gone if it
  -- has no controller of a supported kind or the client does not find that controller; and under
  -- every other key is exactly what was stored before. The API server must meet its laws.
  pub reconcile-IsSafeguarded :
      (w : W)
      → (reconcile (vpa_reconciler_of b) req w).result ≡ ok tt
      → IsSafeguarded b stored req w (reconcile (vpa_reconciler_of b) req w).world
  unfolding reconcile fetch_existing_vpa vpa_reconciler_of ◌>>=◌ get
  reconcile-IsSafeguarded w done = record {
    asked_for = answered-Kept w (b.kube_client.get vpa_gvk req w).0 refl tt done;
    elsewhere = λ k apart. (reconcile-Same k (stored w k) apart).state w refl;
  }
