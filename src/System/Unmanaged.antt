-- ===== src/System/Unmanaged.antt =====
-- The VPA reconciler of internal/controller/vpa_reconciler.go leaves a VPA without the managed label.
use autovpa.Common.{
  false, Option, none, some, ◌≡◌, ◌≢◌, sym, ap, ◌∙◌, index, arith, eq_iff, Bool-cases, inl, inr,
}
use autovpa.Kube.{Object, NamespacedName, Result, ok, err, is_not_found}
use autovpa.Kube.Laws.{AnswersKey}
use autovpa.Effect.{Action, pure, throw, get}
use autovpa.Effect.Keeps.{
  Keeps, OfResult, Anything, Keeps-pure, Keeps-throw, Keeps-attempt, Keeps-if, Keeps-bind,
}
use autovpa.Controller.{vpa_gvk}
use autovpa.Controller.Vpa.{
  VpaReconciler, skip_unmanaged, existing_or_none, fetch_existing_vpa, check_existing, reconcile,
  resolve_owner_gvk,
}
use autovpa.System.{key_of, IsFresh}
use autovpa.System.VpaCalls.{or_count_error-Leaves, check_managed-Leaves}
use autovpa.System.Calls.{Still, get-Still, get_vpa-Still, delete-Still}

module _ {W : Type 0} (v : VpaReconciler W) (stored : W → NamespacedName → Option Object)
    (fresh : IsFresh v.kube_client stored) (k : NamespacedName) (o : Object)
    (unmanaged : index o.labels v.meta.managed_label ≢ "true")
    (answers : AnswersKey v.kube_client) where
  abbrev LeavesIt : {A : Type 0} → Action W A → Type 0
  LeavesIt m = Keeps (Still v.kube_client stored fresh k o) Anything m

  -- What is found under the key `k` is `o`.
  abbrev IsSame : Option Object → Type 0
  IsSame none = Unit
  IsSame (some x) = key_of x ≡ k → x ≡ o

  labelled :
      (x : Object) → skip_unmanaged v x ≡ false → index x.labels v.meta.managed_label ≡ "true"
  unfolding skip_unmanaged
  labelled x h = ground (arith, h, eq_iff (index x.labels v.meta.managed_label) "true")

  check_existing-Leaves : (found : Option Object) → IsSame found → LeavesIt (check_existing v found)
  unfolding check_existing
  check_existing-Leaves none same = Keeps-pure tt tt
  check_existing-Leaves (some x) same = elim (Bool-cases (skip_unmanaged v x)) [
    | inl skipped ↦ rw skipped (Keeps-pure tt tt)
    | inr kept ↦ rw kept (
        check_managed-Leaves v (Still v.kube_client stored fresh k o) (λ x. key_of x ≢ k)
          (delete-Still v.kube_client stored fresh k o) (get-Still v.kube_client stored fresh k o) x
          (resolve_owner_gvk x.owner_references)
          (λ e. unmanaged (
            ap (λ (y : Object). index y.labels v.meta.managed_label) (sym (same e))
            ∙ labelled x kept)))
  ]

  existing_or_none-Leaves :
      (r : Result Object)
      → OfResult (λ (x : Object). key_of x ≡ k → x ≡ o) r
      → Keeps (Still v.kube_client stored fresh k o) IsSame (existing_or_none v r)
  unfolding existing_or_none
  existing_or_none-Leaves (ok x) q = Keeps-pure _ q
  existing_or_none-Leaves (err e) q =
      Keeps-if (is_not_found e) (pure none) (throw e) (λ _. Keeps-pure none tt) (λ _. Keeps-throw e)

  get-IsSame :
      (req : NamespacedName)
      → Keeps
          (Still v.kube_client stored fresh k o)
          (λ x. key_of x ≡ k → x ≡ o)
          (get v.kube_client vpa_gvk req)
  unfolding get
  get-IsSame req = record {
    state = λ w h. fresh.get_keeps vpa_gvk req k w ∙ h;
    answer = λ w h x e same.
        let c = answers.same_key vpa_gvk req w x e in
        let found : key_of x ≡ req = cc (c.0, c.1) in
        (get_vpa-Still v.kube_client stored fresh k o req).answer w h x e (sym (found) ∙ same);
  }

  pub reconcile-Leaves : (req : NamespacedName) → LeavesIt (reconcile v req)
  unfolding reconcile fetch_existing_vpa
  reconcile-Leaves req =
      Keeps-bind _ _
        (Keeps-attempt _
          (Keeps-bind _ _ (Keeps-attempt _ (get-IsSame req)) existing_or_none-Leaves))
        (λ fetched q.
          Keeps-bind _ _
            (or_count_error-Leaves v (Still v.kube_client stored fresh k o) (λ x. key_of x ≢ k)
              (delete-Still v.kube_client stored fresh k o)
              (get-Still v.kube_client stored fresh k o) "get" fetched q)
            check_existing-Leaves)
