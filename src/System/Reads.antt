-- ===== src/System/Reads.antt =====
-- What the reads of a reconciliation, by internal/controller/base_reconciler.go, answer when the rendered VPA
-- is stored and no other one is obsolete: neither the cleanup nor the fetch does more than read.
use autovpa.Common.{
  true, false, Option, some, List, [], ◌∷◌, ◌≡◌, ◌≢◌, refl, sym, ap, ◌∙◌, inl, inr, index, ◌==◌,
  eq_iff, All, Bool-cases,
}
use autovpa.Kube.{Object, GroupVersionKind, NamespacedName, Result, ok, err, is_not_found}
use autovpa.Effect.{Call, get_object, list_objects, pure, attempt, get, list}
use autovpa.Effect.Runs.{Runs, Runs-same, Runs-pure, Runs-throw, Runs-bind, ok-injective}
use autovpa.Controller.{vpa_gvk, vpa_list_gvk}
use autovpa.Controller.Base.Desired.{
  BaseReconciler, DesiredVpaState, found_or_none, fetch_existing_vpa, list_managed_vpas, as_listed,
}
use autovpa.Controller.Base.Delete.{delete_obsolete_managed_vpas}
use autovpa.Controller.Base.Settled.{IsKept, delete_obsolete_loop-IsKept}
use autovpa.System.{key_of, rendered_key, IsReadable}
use autovpa.System.Calls.{some-injective}
use autovpa.System.Elsewhere.{is_obsolete, is_obsolete-intro}

-- A call that only reads: no write, no event, no metric.
abbrev pub IsRead : Call → Type 0
IsRead (get_object _ _ _) = Unit
IsRead (list_objects _ _ _ _ _) = Unit
IsRead _ = ⊥

module _ {W : Type 0} (b : BaseReconciler W) (stored : W → NamespacedName → Option Object)
    (obj : Object) (gvk : GroupVersionKind) (server : IsReadable b.kube_client stored)
    (desired : DesiredVpaState) where
  -- No VPA but the rendered one is obsolete.
  abbrev pub IsTidy : W → Type 0
  IsTidy w =
      (k : NamespacedName) (x : Object)
      → rendered_key obj desired ≢ k
      → stored w k ≡ some x
      → is_obsolete b obj desired.name x ≡ false

  kept :
      (w : W) (x : Object)
      → IsTidy w
      → stored w (key_of x) ≡ some x
      → x.namespace ≡ obj.namespace
      → index x.labels b.meta.managed_label ≡ "true"
      → IsKept b obj gvk desired.name x
  kept w x tidy at inside label = elim (Bool-cases (x.name == desired.name)) [
    | inl same ↦ inl ((eq_iff x.name desired.name).0 same)
    | inr other ↦ elim (Bool-cases (b.platform.is_controlled_by x obj)) [
      | inr free ↦ inr free
      | inl mine ↦
          let renamed : x.name ≢ desired.name =
            λ same. cc ((eq_iff x.name desired.name).1 same, other) in
          let apart : rendered_key obj desired ≢ key_of x =
            λ same. renamed (ap (λ (k : NamespacedName). k.name) (sym same)) in
          let e : false ≡ true =
            sym (tidy (key_of x) x apart at)
            ∙ is_obsolete-intro b obj desired.name x inside label renamed mine in
          cc e
    ]
  ]

  listed-IsKept :
      (w : W) (l : List Object)
      → IsTidy w
      → All (λ x. (stored w (key_of x) ≡ some x) × (index x.labels b.meta.managed_label ≡ "true")) l
      → All (λ (x : Object). x.namespace ≡ obj.namespace) l
      → All (IsKept b obj gvk desired.name) l
  listed-IsKept w [] tidy fresh inside = tt
  listed-IsKept w (x ∷ l) tidy fresh inside =
      (kept w x tidy fresh.0.0 inside.0 fresh.0.1, listed-IsKept w l tidy fresh.1 inside.1)

  module _ (I : W → Type 0)
      (keeps : (w : W)
        → I w
        → I (b.kube_client.list vpa_list_gvk obj.namespace b.meta.managed_label "true" w).1) where
    -- What a list may answer.
    abbrev KeepsListed : Result (List Object) → W → Type 0
    KeepsListed r w = ((l : List Object) → r ≡ ok l → All (IsKept b obj gvk desired.name) l) × I w

    abbrev AllKept : List Object → W → Type 0
    AllKept l w = All (IsKept b obj gvk desired.name) l × I w

    answer-Runs :
        (w : W)
        → IsTidy w
        → I w
        → Runs IsRead KeepsListed
            (attempt (list b.kube_client vpa_list_gvk obj.namespace b.meta.managed_label "true"))
            w
    unfolding list
    answer-Runs w tidy h = record {
      calls = (tt, tt);
      ends = λ r e. (
        λ l answered.
            let got = ok-injective e ∙ answered in
            listed-IsKept w l tidy
              (server.fresh.list_fresh obj.namespace b.meta.managed_label "true" w l got)
              (server.consistent.list_inside obj.namespace b.meta.managed_label "true" w l got),
        keeps w h,
      );
    }

    as_listed-Runs :
        (r : Result (List Object)) (w : W) → KeepsListed r w → Runs IsRead AllKept (as_listed b r) w
    unfolding as_listed
    as_listed-Runs (ok l) w q = Runs-pure AllKept l w (q.0 l refl, q.1)
    as_listed-Runs (err e) w q = Runs-throw AllKept _ w

    list-Runs : (w : W) → IsTidy w → I w → Runs IsRead AllKept (list_managed_vpas b obj.namespace) w
    unfolding list_managed_vpas
    list-Runs w tidy h = Runs-bind KeepsListed AllKept _ _ w (answer-Runs w tidy h) as_listed-Runs

    pub cleanup-Runs :
        (w : W)
        → IsTidy w
        → I w
        → Runs IsRead (λ a w'. I w') (delete_obsolete_managed_vpas b obj gvk.kind desired.name) w
    unfolding delete_obsolete_managed_vpas
    cleanup-Runs w tidy h =
        Runs-bind AllKept (λ a w'. I w') _ _ w (list-Runs w tidy h)
          (λ l w' (all, still).
            Runs-same (λ a w'. I w') _ (pure tt) w'
              (delete_obsolete_loop-IsKept b obj gvk desired.name l w' all)
              (Runs-pure (λ a w'. I w') tt w' still))

  module _ (y : Object) where
    abbrev pub Here : W → Type 0
    Here w = stored w (rendered_key obj desired) ≡ some y

    -- What a Get of the rendered VPA may answer.
    abbrev FindsIt : Result Object → W → Type 0
    FindsIt (ok x) w = x ≡ y
    FindsIt (err e) w = is_not_found e ≡ false

    finds :
        (r : Result Object) (w w' : W)
        → Here w
        → (b.kube_client.get vpa_gvk (rendered_key obj desired) w).0 ≡ r
        → FindsIt r w'
    finds (ok x) w w' h got = some-injective (sym (server.fresh.get_fresh _ w x got) ∙ h)
    finds (err e) w w' h got = elim (Bool-cases (is_not_found e)) [
      | inr other ↦ other
      | inl missing ↦
          let gone = sym (server.consistent.get_missing _ w e got missing) ∙ h in cc gone
    ]

    found-Runs :
        (r : Result Object) (w : W)
        → FindsIt r w
        → Runs IsRead (λ found w'. found ≡ some y) (found_or_none b r) w
    unfolding found_or_none
    found-Runs (ok x) w same = Runs-pure (λ found w'. found ≡ some y) (some x) w (ap some same)
    found-Runs (err e) w other = rw other (Runs-throw (λ found w'. found ≡ some y) e w)

    get-Runs :
        (w : W)
        → Here w
        → Runs IsRead FindsIt (attempt (get b.kube_client vpa_gvk (rendered_key obj desired))) w
    unfolding get
    get-Runs w h = record { calls = (tt, tt); ends = λ r e. finds r w _ h (ok-injective e) }

    pub fetch-Runs :
        (w : W)
        → Here w
        → Runs IsRead
            (λ found w'. found ≡ some y)
            (fetch_existing_vpa b (rendered_key obj desired))
            w
    unfolding fetch_existing_vpa
    fetch-Runs w h = Runs-bind FindsIt (λ found w'. found ≡ some y) _ _ w (get-Runs w h) found-Runs
