-- ===== src/System/Applies.antt =====
-- Creating and updating the VPA of a workload, by internal/controller/base_reconciler.go, keeps what an
-- apply of another VPA than `k` keeps.
use autovpa.Common.{Option, none, some, [], ◌≡◌, ◌≢◌, sym, ◌∙◌}
use autovpa.Kube.{
  PatchOptions, Object, GroupVersionKind, NamespacedName, Result, ok, err, is_not_found,
}
use autovpa.Kube.Laws.{KeepsContent, AnswersKey}
use autovpa.Effect.{patch, Action, pure, throw, get, ◌>>=◌}
use autovpa.Effect.Keeps.{
  Anything, Keeps, OfResult, Keeps-pure, Keeps-throw, Keeps-lift, Keeps-attempt, Keeps-if,
  Keeps-bind, Keeps-then, Keeps-emit, keeps_rules,
}
use autovpa.Metrics.{inc_vpa_created, inc_vpa_updated, inc_vpa_managed}
use autovpa.Controller.{vpa_gvk, new_vpa_object}
use autovpa.Controller.Base.Desired.{
  BaseReconciler, DesiredVpaState, create_vpa, apply_vpa, update_vpa, merge_vpa, found_or_none,
  fetch_existing_vpa,
}
use autovpa.Controller.Base.{create_desired, update_existing, apply_desired}
use autovpa.System.{key_of, rendered_key}

module _ {W : Type 0} (b : BaseReconciler W) (k : NamespacedName) (I : W → Type 0)
    (patches : (x : Object) (options : PatchOptions)
      → key_of x ≢ k
      → Keeps I Anything (patch b.kube_client x options))
    (reads : (key : NamespacedName) (w : W) → I w → I (b.kube_client.get vpa_gvk key w).1)
    (content : KeepsContent b.platform) (answers : AnswersKey b.kube_client) where
  abbrev LeavesIt : {A : Type 0} → Action W A → Type 0
  LeavesIt m = Keeps I Anything m

  apply_vpa-Leaves : (x : Object) → key_of x ≢ k → LeavesIt (apply_vpa b x)
  unfolding apply_vpa
  apply_vpa-Leaves x other = patches (record x { managed_fields = [] }) _ other

  -- SetControllerReference keeps the key.
  same_key :
      (owner object result : Object)
      → b.platform.set_controller_reference owner object ≡ ok result
      → key_of result ≡ key_of object
  same_key owner object result h =
      let c = content.same_content owner object result h in cc (c.0, c.1)

  module _ (obj : Object) (gvk : GroupVersionKind) where
    create_vpa-Leaves :
        (desired : DesiredVpaState)
        → rendered_key obj desired ≢ k
        → LeavesIt (create_vpa b obj desired.name desired.labels desired.spec)
    unfolding create_vpa new_vpa_object
    create_vpa-Leaves desired other =
        Keeps-bind _ _
          (Keeps-lift {Q = λ x. key_of x ≡ rendered_key obj desired} _ (same_key obj _))
          (λ x same. apply_vpa-Leaves x (λ e. other (sym same ∙ e)))

    create_desired-Leaves :
        (desired : DesiredVpaState)
        → rendered_key obj desired ≢ k
        → LeavesIt (create_desired b obj gvk desired)
    unfolding create_desired inc_vpa_created inc_vpa_managed
    create_desired-Leaves desired other = Keeps-then _ _ (create_vpa-Leaves desired other) (λ _.
        Keeps-then _ _ (Keeps-emit _) (λ _. Keeps-then _ _ (Keeps-emit _) (λ _. Keeps-emit _)))

    update_existing-Leaves :
        (desired : DesiredVpaState) (updated : Object)
        → key_of updated ≢ k
        → LeavesIt (update_existing b obj gvk desired updated)
    unfolding update_existing update_vpa inc_vpa_updated
    update_existing-Leaves desired updated other =
        Keeps-then _ _ (apply_vpa-Leaves updated other)
          (λ _. Keeps-then _ _ (Keeps-emit _) (λ _. Keeps-emit _))

    -- What is found has the key that was asked for.
    abbrev pub HasKey : NamespacedName → Option Object → Type 0
    HasKey key none = Unit
    HasKey key (some x) = key_of x ≡ key

    pub apply_desired-Leaves :
        (desired : DesiredVpaState) (found : Option Object)
        → rendered_key obj desired ≢ k
        → HasKey (rendered_key obj desired) found
        → LeavesIt (apply_desired b obj gvk desired found)
    unfolding apply_desired merge_vpa new_vpa_object
    apply_desired-Leaves desired none other key = create_desired-Leaves desired other
    apply_desired-Leaves desired (some existing) other key =
        Keeps-bind _ _ (Keeps-lift {Q = λ x. key_of x ≡ key_of existing} _ (same_key obj _))
          (λ updated same.
            let updates =
              update_existing-Leaves desired updated (λ e. other (sym key ∙ (sym same ∙ e))) in
            search (keeps_rules, updates))

    found_or_none-HasKey :
        (key : NamespacedName) (r : Result Object)
        → OfResult (λ (x : Object). key_of x ≡ key) r
        → Keeps I (HasKey key) (found_or_none b r)
    unfolding found_or_none
    found_or_none-HasKey key (ok x) q = Keeps-pure _ q
    found_or_none-HasKey key (err e) q =
        Keeps-if (is_not_found e) (pure none) (throw e) (λ _. Keeps-pure none tt)
          (λ _. Keeps-throw e)

    get-HasKey :
        (key : NamespacedName) → Keeps I (λ x. key_of x ≡ key) (get b.kube_client vpa_gvk key)
    unfolding get
    get-HasKey key = record {
      state = λ w h. reads key w h;
      answer = λ w h x e. let c = answers.same_key vpa_gvk key w x e in cc (c.0, c.1);
    }

    pub fetch_existing_vpa-HasKey :
        (key : NamespacedName) → Keeps I (HasKey key) (fetch_existing_vpa b key)
    unfolding fetch_existing_vpa
    fetch_existing_vpa-HasKey key =
        Keeps-bind _ _ (Keeps-attempt _ (get-HasKey key)) (found_or_none-HasKey key)

    -- What follows the cleanup in a reconciliation.
    pub fetch_and_apply-Leaves :
        (desired : DesiredVpaState)
        → rendered_key obj desired ≢ k
        → LeavesIt (
            fetch_existing_vpa b (rendered_key obj desired) >>= λ found.
            apply_desired b obj gvk desired found)
    fetch_and_apply-Leaves desired other =
        Keeps-bind _ _ (fetch_existing_vpa-HasKey (rendered_key obj desired))
          (λ found key. apply_desired-Leaves desired found other key)
