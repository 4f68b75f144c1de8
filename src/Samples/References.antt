-- ===== src/Samples/References.antt =====
-- The owner references of the sample platform meet what the theorems assume of them.
use autovpa.Common.{
  Bool, true, false, Option, none, some, List, [], ◌∷◌, ◌≡◌, ◌↔◌, refl, eq_iff, arith,
}
use autovpa.Kube.{OwnerReference, Object}
use autovpa.Kube.Laws.{ComparesOwners, MakesReference}
use autovpa.Predicates.{same_flag, same_ref}
use autovpa.Controller.{deployment_gvk}
use autovpa.Samples.{same_refs, controller_ref, sample_platform}

same_flag_iff : (a b : Option Bool) → (same_flag a b ≡ true) ↔ (a ≡ b)
unfolding same_flag
same_flag_iff none none = (λ h. refl, λ e. refl)
same_flag_iff none (some b) = ground arith
same_flag_iff (some a) none = ground arith
same_flag_iff (some true) (some b) = ground arith
same_flag_iff (some false) (some b) = ground arith

same_ref_iff : (a b : OwnerReference) → (same_ref (some a) (some b) ≡ true) ↔ (a ≡ b)
unfolding same_ref
same_ref_iff a b = ground (
  arith,
  eq_iff a.api_version b.api_version,
  eq_iff a.kind b.kind,
  eq_iff a.name b.name,
  eq_iff a.uid b.uid,
  same_flag_iff a.controller b.controller,
  same_flag_iff a.block_owner_deletion b.block_owner_deletion,
)

same_refs_iff : (r s : List OwnerReference) → (same_refs r s ≡ true) ↔ (r ≡ s)
same_refs_iff [] [] = (λ h. refl, λ e. refl)
same_refs_iff [] (b ∷ s) = ground arith
same_refs_iff (a ∷ r) [] = ground arith
same_refs_iff (a ∷ r) (b ∷ s) = ground (arith, same_ref_iff a b, same_refs_iff r s)

pub sample-ComparesOwners : ComparesOwners sample_platform
unfolding sample_platform
sample-ComparesOwners = record { equal_iff = same_refs_iff }

pub sample-MakesReference :
    (owner : Object) → MakesReference sample_platform owner deployment_gvk (controller_ref owner)
unfolding sample_platform
sample-MakesReference owner = record {
  only_reference = λ object result none_yet h. ground (arith, none_yet, h);
  controls = refl;
  same_kind = refl;
  same_name = refl;
}
