-- ===== src/Controller/Base/Gauge.antt =====
-- The gauge of managed VPAs when internal/controller/base_reconciler.go meets a VPA that exists.
use autovpa.Common.{false, some, arith, ◌≡◌, refl, any, Bool-cases, inl, inr}
use autovpa.Kube.{Object, GroupVersionKind, Result-cases}
use autovpa.Effect.{◌>>=◌, emit, patch}
use autovpa.Effect.Counts.{is_gauge}
use autovpa.Controller.{vpa_needs_update}
use autovpa.Controller.Base.Desired.{
  DesiredVpaState, BaseReconciler, merge_vpa, apply_vpa, update_vpa,
}
use autovpa.Controller.Base.{update_existing, apply_desired}

module _ {W : Type 0} (b : BaseReconciler W) (obj : Object) (gvk : GroupVersionKind) where
  update_existing-gauge :
      (desired : DesiredVpaState) (updated : Object) (w : W)
      → any is_gauge (update_existing b obj gvk desired updated w).calls ≡ false
  unfolding update_existing update_vpa apply_vpa ◌>>=◌ patch emit
  update_existing-gauge desired updated w = ground arith

  -- Bringing a VPA that exists to the desired state leaves the gauge of managed VPAs alone, whatever
  -- profile the VPA carried before and the client answers: the count of the old profile is not lowered
  -- and that of the new one not raised.
  pub existing_keeps_gauge :
      (desired : DesiredVpaState) (existing : Object) (w : W)
      → any is_gauge (apply_desired b obj gvk desired (some existing) w).calls ≡ false
  unfolding apply_desired ◌>>=◌
  existing_keeps_gauge desired existing w = elim (Result-cases (merge_vpa b existing desired obj)) [
    | inr (e, bad) ↦ rw bad refl
    | inl (updated, merged) ↦
        elim (Bool-cases (vpa_needs_update b.platform (some existing) (some updated))) [
          | inl needed ↦ rw (merged, needed) (update_existing-gauge desired updated w)
          | inr fine ↦ rw (merged, fine) refl
        ]
  ]
