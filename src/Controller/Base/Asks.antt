-- ===== src/Controller/Base/Asks.antt =====
-- When ReconcileWorkload of internal/controller/base_reconciler.go asks the API server for anything.
use autovpa.Common.{Bool, true, false, Option, none, some, ◌≡◌, any, index}
use autovpa.Kube.{Object, GroupVersionKind, Result, ok, err}
use autovpa.Config.{Profile}
use autovpa.Effect.{Outcome}
use autovpa.Effect.Counts.{is_request}
use autovpa.Controller.Base.Desired.{BaseReconciler, DesiredVpaState, build_desired_vpa}

module _ {W : Type 0} (b : BaseReconciler W) (obj : Object) (gvk : GroupVersionKind) where
  -- Whether the VPA of the profile can be built.
  abbrev pub is_built : Result DesiredVpaState → Bool
  is_built (ok _) = true
  is_built (err _) = false

  -- The profile that the annotation names, and the VPA that it gives.
  abbrev pub asks_for : Option Profile → Bool
  asks_for none = false
  asks_for (some profile) =
      is_built (build_desired_vpa b obj gvk (index obj.annotations b.meta.profile_key) profile)

  abbrev pub unbuilt : Result DesiredVpaState → Result (Unit {0})
  unbuilt (ok _) = ok tt
  unbuilt (err e) = err e

  -- What a reconciliation returns that asks for nothing.
  abbrev pub unasked : Option Profile → Result (Unit {0})
  unasked none = ok tt
  unasked (some profile) =
      unbuilt (build_desired_vpa b obj gvk (index obj.annotations b.meta.profile_key) profile)

  -- Whether anything was asked, and what comes of it if nothing was.
  abbrev pub Asks : Bool → Result (Unit {0}) → Outcome W Unit → Type 0
  Asks true quiet o = any is_request o.calls ≡ true
  Asks false quiet o = (any is_request o.calls ≡ false) × (o.result ≡ quiet)
