-- ===== src/System/Owned.antt =====
-- What internal/controller reads in the owner reference that SetControllerReference makes.
use autovpa.Common.{
  List, Option, String, true, some, [], ◌∷◌, ◌≡◌, ap, ◌∙◌, any, arith, eq_iff, ◌==◌,
}
use autovpa.Kube.{NamespacedName, Object, OwnerReference, GroupVersionKind, Platform}
use autovpa.Kube.Laws.{ComparesOwners, MakesReference}
use autovpa.Controller.Base.Desired.{BaseReconciler}
use autovpa.System.{KeepsOwners}
use autovpa.System.Desired.{IsOwnerProperty}
use autovpa.Controller.Base.Safety.{refers_to}
use autovpa.Controller.Vpa.{supported, resolve_owner_gvk}

module _ (platform : Platform) (owner : Object) (gvk : GroupVersionKind) (ref : OwnerReference)
    (makes : MakesReference platform owner gvk ref) where
  -- The VPA reconciler finds the workload in it.
  pub resolve_owner_gvk-ref :
      supported gvk.kind ≡ some gvk
      → resolve_owner_gvk (ref ∷ []) ≡ some (record { gvk = gvk; name = owner.name })
  unfolding resolve_owner_gvk
  resolve_owner_gvk-ref handled =
      let kind : supported ref.kind ≡ some gvk = ap supported makes.same_kind ∙ handled in
      ground (arith, kind, makes.controls, makes.same_name)

  -- The cleanups of a workload controller find no other workload in it.
  pub refers_to-ref :
      (kind name : String)
      → any (refers_to kind name) (ref ∷ []) ≡ true
      → (kind ≡ gvk.kind) × (name ≡ owner.name)
  refers_to-ref kind name h =
      let a : (ref.kind == kind) ≡ true = ground (arith, h) in
      let b : (ref.name == name) ≡ true = ground (arith, h) in
      let c : ref.kind ≡ kind = (eq_iff ref.kind kind).0 a in
      let d : ref.name ≡ name = (eq_iff ref.name name).0 b in
      (cc (c, makes.same_kind), cc (d, makes.same_name))

-- The owner references of a VPA that has one owner.
abbrev pub IsOnly : OwnerReference → List OwnerReference → Type 0
IsOnly ref refs = refs ≡ ref ∷ []

pub IsOnly-IsOwnerProperty :
    {W : Type 0} (b : BaseReconciler W) (stored : W → NamespacedName → Option Object) (obj : Object)
    (gvk : GroupVersionKind) (ref : OwnerReference)
    → ComparesOwners b.platform
    → MakesReference b.platform obj gvk ref
    → KeepsOwners b.kube_client stored
    → IsOwnerProperty b stored obj gvk (IsOnly ref)
IsOnly-IsOwnerProperty b stored obj gvk ref compares makes keeps = record {
  made = λ object x none e. makes.only_reference object x none e;
  kept = λ x y options w e at h. keeps.same_owners x y options w e at ∙ h;
  equal = λ r s e h. (compares.equal_iff r s).0 e ∙ h;
}
