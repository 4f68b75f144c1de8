-- ===== src/Controller/Vpa/Gauge.antt =====
-- When the VPA controller, internal/controller/vpa_reconciler.go, lowers the gauge of managed VPAs.
use autovpa.Common.{
  ap, ◌+◌, Bool, true, false, Option, none, some, arith, ◌≡◌, refl, count_if, Bool-cases,
  Option-cases, inl, inr,
}
use autovpa.Kube.{Object, NamespacedName, is_not_found, Result, ok, err}
use autovpa.Effect.{Call, delete_object, Action, ◌>>=◌, emit, get, delete}
use autovpa.Effect.Counts.{is_gauge_dec}
use autovpa.Controller.Vpa.{
  VpaReconciler, Owner, existing_or_none, or_count_error, delete_orphan, delete_owner_gone,
  check_owner, check_managed, check_existing, reconcile, fetch_owner, skip_unmanaged,
  resolve_owner_gvk,
}
use autovpa.Controller.Vpa.Decision.{answered, reconcile_lem}

-- A deletion after which the VPA is gone: it was confirmed, or the VPA was gone before.
abbrev pub leaves_none : Call → Bool
leaves_none (delete_object _ (ok _)) = true
leaves_none (delete_object _ (err e)) = is_not_found e
leaves_none _ = false

module _ {W : Type 0} (r : VpaReconciler W) where
  abbrev Lowers : Action W Unit → Type 0
  Lowers m = (w : W) → count_if is_gauge_dec (m w).calls ≡ count_if leaves_none (m w).calls

  delete_orphan-Lowers : (vpa : Object) → Lowers (delete_orphan r vpa)
  unfolding delete_orphan ◌>>=◌ emit delete
  delete_orphan-Lowers vpa w = ground arith

  delete_owner_gone-Lowers : (vpa : Object) (owner : Owner) → Lowers (delete_owner_gone r vpa owner)
  unfolding delete_owner_gone ◌>>=◌ emit delete
  delete_owner_gone-Lowers vpa owner w = ground arith

  check_owner-Lowers :
      (vpa : Object) (owner : Owner) (found : Result Object)
      → Lowers (check_owner r vpa owner found)
  unfolding check_owner ◌>>=◌ emit
  check_owner-Lowers vpa owner (ok _) w = refl
  check_owner-Lowers vpa owner (err e) w = elim (Bool-cases (is_not_found e)) [
    | inl gone ↦ rw gone (delete_owner_gone-Lowers vpa owner w)
    | inr other ↦ rw other refl
  ]

  check_existing-Lowers : (found : Option Object) → Lowers (check_existing r found)
  unfolding check_existing check_managed ◌>>=◌ get fetch_owner
  check_existing-Lowers none w = refl
  check_existing-Lowers (some vpa) w = elim (Bool-cases (skip_unmanaged r vpa)) [
    | inl skip ↦ rw skip refl
    | inr managed ↦ elim (Option-cases (resolve_owner_gvk vpa.owner_references)) [
      | inl orphan ↦ rw (managed, orphan) (delete_orphan-Lowers vpa w)
      | inr (owner, found) ↦
          rw (managed, found) (ap (λ n. 0 + n) (check_owner-Lowers vpa owner _ _))
    ]
  ]

  answered-Lowers : (found : Result Object) → Lowers (answered r found)
  unfolding existing_or_none or_count_error ◌>>=◌ emit
  answered-Lowers (ok vpa) w = check_existing-Lowers (some vpa) w
  answered-Lowers (err e) w = elim (Bool-cases (is_not_found e)) [
    | inl gone ↦ rw gone (check_existing-Lowers none w)
    | inr other ↦ rw other refl
  ]

  -- Whatever the client answers, a reconciliation by the VPA controller lowers the gauge of managed
  -- VPAs once for each deletion that was confirmed, and once for each that found the VPA already
  -- gone, although it has deleted nothing then; and not for a deletion that failed otherwise.
  pub gauge_lowered_when_gone :
      (req : NamespacedName) (w : W)
      → count_if is_gauge_dec (reconcile r req w).calls
        ≡ count_if leaves_none (reconcile r req w).calls
  gauge_lowered_when_gone req w = rw reconcile_lem (ap (λ n. 0 + n) (answered-Lowers _ _))
