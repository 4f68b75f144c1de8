-- ===== src/System/Others.antt =====
-- The VPA of a workload and everything that goes on beside that workload: what the reconcilers of
-- internal/controller do for others, and how that is said.
pub mod Requests
pub mod Safeguard
pub mod Kept
pub mod Tests
use autovpa.Common.{String, false, Option, some, ◌≡◌, ◌≢◌, index, index?}
use autovpa.Kube.{Object, GroupVersionKind, NamespacedName, ok}
use autovpa.Config.{Profile}
use autovpa.Effect.{get}
use autovpa.Controller.{vpa_gvk}
use autovpa.Controller.Base.Desired.{BaseReconciler, DesiredVpaState, build_desired_vpa}
use autovpa.Controller.Workload.{reconcile_request}
use autovpa.Controller.Vpa.{VpaReconciler, reconcile}
use autovpa.Controller.Vpa.Decision.{owner_gone}
use autovpa.System.{key_of, rendered_key, vpa_reconciler_of}

module _ {W : Type 0} (b : BaseReconciler W) (stored : W → NamespacedName → Option Object)
    (o owner : Object) (gvk : GroupVersionKind) where
  -- A request for another workload than the owner of `o`.
  abbrev pub IsOther : GroupVersionKind → NamespacedName → Type 0
  IsOther g req = ◌≢◌ {A = String × NamespacedName} (g.kind, req) (gvk.kind, key_of owner)

  -- The VPA that the annotation of a workload asks for has another key than `o`.
  abbrev pub IsElsewhere : GroupVersionKind → Object → Type 0
  IsElsewhere g obj =
      (profile : Profile) (desired : DesiredVpaState)
      → index? b.profiles.entries (index obj.annotations b.meta.profile_key) ≡ some profile
      → build_desired_vpa b obj g (index obj.annotations b.meta.profile_key) profile ≡ ok desired
      → rendered_key obj desired ≢ key_of o

  -- The workload that Get answers for the request, if there is one, does not control `o`, and its
  -- annotation does not ask for a VPA with the key of `o`.
  abbrev pub IsApart : GroupVersionKind → NamespacedName → W → Type 0
  IsApart g req w =
      (obj : Object)
      → (b.kube_client.get g req w).0 ≡ ok obj
      → (b.platform.is_controlled_by o obj ≡ false) × IsElsewhere g obj

  abbrev pub safeguard : VpaReconciler W
  safeguard = record { kube_client = b.kube_client; meta = b.meta }

  -- The client does not answer that the owner is missing, when the VPA reconciler asks for it after the
  -- VPA of the key.
  abbrev pub IsPresentFor : NamespacedName → W → Type 0
  IsPresentFor req w =
      owner_gone safeguard
        (b.kube_client.get gvk (key_of owner) (b.kube_client.get vpa_gvk req w).1).0
      ≡ false

  -- A reconciliation of a workload controller for another workload, one of the VPA controller while the
  -- owner is there, or a step of somebody else that leaves `o`. Reconciliations may fail.
  pub data OtherStep (w : W) : W → Type 0 where
    workload :
        (g : GroupVersionKind) (req : NamespacedName)
        → IsOther g req
        → IsApart g req w
        → OtherStep w (reconcile_request b g req w).world
    vpa :
        (req : NamespacedName)
        → IsPresentFor req w
        → OtherStep w (reconcile (vpa_reconciler_of b) req w).world
    elsewhere : (w' : W) → stored w' (key_of o) ≡ stored w (key_of o) → OtherStep w w'

  pub data OtherReach (w : W) : W → Type 0 where
    here : OtherReach w w
    next : {w' w'' : W} → OtherReach w w' → OtherStep w' w'' → OtherReach w w''
