-- ===== src/System.antt =====
-- The controllers together: every reconciliation of internal/controller is one step on the cluster
-- that they share, in any order and for any request, and so is whatever anybody else does.
pub mod Calls
pub mod Obsolete
pub mod Deletions
pub mod Applies
pub mod VpaCalls
pub mod WorkloadCalls
pub mod Unmanaged
pub mod Untouched
pub mod Gone
pub mod Cleanups
pub mod Desired
pub mod Listed
pub mod Elsewhere
pub mod Disowned
pub mod Reconciled
pub mod Request
pub mod Owned
pub mod Reads
pub mod Tidy
pub mod Again
pub mod Others
pub mod Agrees
pub mod VpaDeletes
pub mod Orphans
mod Memory
mod Tests
use autovpa.Common.{
  entries, IsMap, String, Bool, List, Option, true, none, some, In, ◌≡◌, ◌≢◌, All, index, index?,
}
use autovpa.Kube.{
  Object, GroupVersionKind, NamespacedName, Error, is_not_found, Result, ok, err, Client,
  PatchOptions, Platform, spec_of,
}
use autovpa.Kube.Laws.{AnswersKey}
use autovpa.Config.{Profile}
use autovpa.Effect.{Outcome}
use autovpa.Controller.{vpa_gvk, vpa_list_gvk}
use autovpa.Controller.Base.Desired.{BaseReconciler, DesiredVpaState, build_desired_vpa}
use autovpa.Controller.Workload.{reconcile_deployment, reconcile_stateful_set, reconcile_daemon_set}
use autovpa.Controller.Vpa.{VpaReconciler, reconcile}

abbrev pub key_of : Object → NamespacedName
key_of o = record { namespace = o.namespace; name = o.name }

-- The key of the VPA that a workload is to have.
abbrev pub rendered_key : Object → DesiredVpaState → NamespacedName
rendered_key obj desired = record { namespace = obj.namespace; name = desired.name }

-- An API server that is read without delay, where `stored w` has the VPAs of the state `w`: reads
-- change none of them and give what is stored, a list gives only VPAs with the label that it asks
-- for, and a delete or an apply changes no VPA but the one that it names.
pub record IsFresh {W : Type 0} (client : Client W) (stored : W → NamespacedName → Option Object)
    : Type 0 where
  pub get_keeps :
      (gvk : GroupVersionKind) (key k : NamespacedName) (w : W)
      → stored (client.get gvk key w).1 k ≡ stored w k
  pub get_fresh :
      (key : NamespacedName) (w : W) (o : Object)
      → (client.get vpa_gvk key w).0 ≡ ok o
      → stored w key ≡ some o
  pub list_keeps :
      (ns label value : String) (k : NamespacedName) (w : W)
      → stored (client.list vpa_list_gvk ns label value w).1 k ≡ stored w k
  pub list_fresh :
      (ns label value : String) (w : W) (l : List Object)
      → (client.list vpa_list_gvk ns label value w).0 ≡ ok l
      → All (λ o. (stored w (key_of o) ≡ some o) × (index o.labels label ≡ value)) l
  pub delete_only :
      (o : Object) (k : NamespacedName) (w : W)
      → key_of o ≢ k
      → stored (client.delete o w).1 k ≡ stored w k
  pub patch_only :
      (o : Object) (options : PatchOptions) (k : NamespacedName) (w : W)
      → key_of o ≢ k
      → stored (client.patch o options w).1 k ≡ stored w k

-- The same server gives with a list every VPA of the namespace that has the label, and a delete that
-- succeeds or finds nothing leaves nothing under its key, and creates nothing elsewhere.
pub record IsComplete {W : Type 0} (client : Client W) (stored : W → NamespacedName → Option Object)
    : Type 0 where
  pub list_complete :
      (ns label value : String) (w : W) (l : List Object) (o : Object)
      → (client.list vpa_list_gvk ns label value w).0 ≡ ok l
      → stored w (key_of o) ≡ some o
      → o.namespace ≡ ns
      → index o.labels label ≡ value
      → In o l
  pub delete_done :
      (o : Object) (w : W)
      → (client.delete o w).0 ≡ ok tt
      → stored (client.delete o w).1 (key_of o) ≡ none
  pub delete_missing :
      (o : Object) (w : W) (e : Error)
      → (client.delete o w).0 ≡ err e
      → is_not_found e ≡ true
      → stored (client.delete o w).1 (key_of o) ≡ none
  pub delete_creates_nothing :
      (o : Object) (k : NamespacedName) (w : W)
      → stored w k ≡ none
      → stored (client.delete o w).1 k ≡ none

-- The same server stores every VPA under its own key, lists only VPAs of the namespace that it is
-- asked for, and finds what is stored.
pub record IsConsistent {W : Type 0} (client : Client W)
    (stored : W → NamespacedName → Option Object) : Type 0 where
  pub keyed : (w : W) (k : NamespacedName) (o : Object) → stored w k ≡ some o → key_of o ≡ k
  pub list_inside :
      (ns label value : String) (w : W) (l : List Object)
      → (client.list vpa_list_gvk ns label value w).0 ≡ ok l
      → All (λ o. o.namespace ≡ ns) l
  pub get_missing :
      (key : NamespacedName) (w : W) (e : Error)
      → (client.get vpa_gvk key w).0 ≡ err e
      → is_not_found e ≡ true
      → stored w key ≡ none

-- An API server that keeps what is applied: after an apply that succeeds there is an object of that
-- key with an equal spec and with the labels that were applied. No label of a stored object stands
-- twice.
pub record IsApplying {W : Type 0} (client : Client W) (platform : Platform)
    (stored : W → NamespacedName → Option Object) : Type 0 where
  pub applied :
      (x : Object) (options : PatchOptions) (w : W)
      → (client.patch x options w).0 ≡ ok tt
      → (y : Object) × (stored (client.patch x options w).1 (key_of x) ≡ some y)
        × (platform.deep_equal (spec_of y.body) (spec_of x.body) ≡ true)
        × ((k v : String) → index? x.labels k ≡ some v → index? y.labels k ≡ some v)
  pub labels_once :
      (k : NamespacedName) (w : W) (y : Object) → stored w k ≡ some y → IsMap (entries y.labels)

-- Nobody but the operator writes owner references of the VPAs: an apply stores its own.
pub record KeepsOwners {W : Type 0} (client : Client W)
    (stored : W → NamespacedName → Option Object) : Type 0 where
  pub same_owners :
      (x y : Object) (options : PatchOptions) (w : W)
      → (client.patch x options w).0 ≡ ok tt
      → stored (client.patch x options w).1 (key_of x) ≡ some y
      → y.owner_references ≡ x.owner_references

-- The laws of an API server, but for owner references; Get answers with the object that it is asked for.
pub record IsApiServer {W : Type 0} (client : Client W) (platform : Platform)
    (stored : W → NamespacedName → Option Object) : Type 0 where
  pub fresh : IsFresh client stored
  pub complete : IsComplete client stored
  pub consistent : IsConsistent client stored
  pub applying : IsApplying client platform stored
  pub answers : AnswersKey client

-- The laws that say nothing of what an apply stores.
pub record IsReadable {W : Type 0} (client : Client W) (stored : W → NamespacedName → Option Object)
    : Type 0 where
  pub fresh : IsFresh client stored
  pub complete : IsComplete client stored
  pub consistent : IsConsistent client stored
  pub answers : AnswersKey client

-- The VPA reconciler that Run makes: it has the client and the keys of the other three.
unfoldable pub vpa_reconciler_of : {W : Type 0} → BaseReconciler W → VpaReconciler W
vpa_reconciler_of b = record { kube_client = b.kube_client; meta = b.meta }

module _ {W : Type 0} (b : BaseReconciler W) (k : NamespacedName) where
  module _ (stored : W → NamespacedName → Option Object) where
    -- One reconciliation, whatever comes of it, or a step of somebody else that leaves the VPA `k`.
    pub data Step (w : W) : W → Type 0 where
      deployment : (req : NamespacedName) → Step w (reconcile_deployment b req w).world
      stateful_set : (req : NamespacedName) → Step w (reconcile_stateful_set b req w).world
      daemon_set : (req : NamespacedName) → Step w (reconcile_daemon_set b req w).world
      vpa : (req : NamespacedName) → Step w (reconcile (vpa_reconciler_of b) req w).world
      elsewhere : (w' : W) → stored w' k ≡ stored w k → Step w w'

    pub data Reach (w : W) : W → Type 0 where
      here : Reach w w
      next : {w' w'' : W} → Reach w w' → Step w' w'' → Reach w w''

  -- No workload has the VPA `k` rendered for it, from the profile that its annotation names.
  abbrev pub IsNeverRendered : Type 0
  IsNeverRendered =
      (obj : Object) (gvk : GroupVersionKind) (profile : Profile) (desired : DesiredVpaState)
      → index? b.profiles.entries (index obj.annotations b.meta.profile_key) ≡ some profile
      → build_desired_vpa b obj gvk (index obj.annotations b.meta.profile_key) profile ≡ ok desired
      → rendered_key obj desired ≢ k
