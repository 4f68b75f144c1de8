-- ===== src/Kube/Laws.antt =====
-- What the theorems assume of the libraries of Kube, as documented there. A theorem names what it
-- needs; most need nothing.
use autovpa.Common.{List, [], ◌∷◌, some, true, length, ◌≡◌, ◌↔◌}
use autovpa.Kube.{OwnerReference, Object, GroupVersionKind, NamespacedName, ok, Client, Platform}

-- SetControllerReference changes nothing but the owner references.
pub record KeepsContent (platform : Platform) : Type 0 where
  pub same_content :
      (owner object result : Object)
      → platform.set_controller_reference owner object ≡ ok result
      → (result.name ≡ object.name)
        × (result.namespace ≡ object.namespace)
        × (result.labels ≡ object.labels)
        × (result.body ≡ object.body)

-- Get answers with the object of the key that it was given.
pub record AnswersKey {W : Type 0} (client : Client W) : Type 0 where
  pub same_key :
      (gvk : GroupVersionKind) (key : NamespacedName) (w : W) (object : Object)
      → (client.get gvk key w).0 ≡ ok object
      → (object.name ≡ key.name) × (object.namespace ≡ key.namespace)

-- SetControllerReference gives an object without owner references one, and semantic equality does
-- not confuse lists of different lengths.
pub record CountsOwners (platform : Platform) : Type 0 where
  pub one_owner :
      (owner object result : Object)
      → object.owner_references ≡ []
      → platform.set_controller_reference owner object ≡ ok result
      → length result.owner_references ≡ 1
  pub same_length :
      (a b : List OwnerReference) → platform.deep_equal_refs a b ≡ true → length a ≡ length b

-- Semantic equality of owner references is equality.
pub record ComparesOwners (platform : Platform) : Type 0 where
  pub equal_iff : (r s : List OwnerReference) → (platform.deep_equal_refs r s ≡ true) ↔ (r ≡ s)

-- The reference that SetControllerReference makes to a workload: the only one of an object that had
-- none, a controller reference with the workload's kind and name.
pub record MakesReference (platform : Platform) (owner : Object) (gvk : GroupVersionKind)
    (ref : OwnerReference) : Type 0 where
  pub only_reference :
      (object result : Object)
      → object.owner_references ≡ []
      → platform.set_controller_reference owner object ≡ ok result
      → result.owner_references ≡ ref ∷ []
  pub controls : ref.controller ≡ some true
  pub same_kind : ref.kind ≡ gvk.kind
  pub same_name : ref.name ≡ owner.name
