-- ===== src/Predicates/Laws.antt =====
-- What the predicates of internal/predicates enqueue.
use autovpa.Common.{
  Bool, true, false, Option, none, some, String, eq_iff, eq_self, arith, ◌≡◌, ◌≢◌, ◌↔◌, refl,
}
use autovpa.Kube.{OwnerReference}
use autovpa.Predicates.{
  WatchEvent, create, update, delete, generic, Presence, profile_update, managed_update, or_rest,
  same_flag, same_ref, deletion_just_started, operator_labels_changed, profile_annotation_lifecycle,
  managed_vpa_structural_lifecycle, managed_vpa_lifecycle,
}

same_flag_iff : (a b : Option Bool) → (same_flag a b ≡ true) ↔ (a ≡ b)
unfolding same_flag
same_flag_iff none none = ground arith
same_flag_iff none (some true) = ground arith
same_flag_iff none (some false) = ground arith
same_flag_iff (some true) b = ground arith
same_flag_iff (some false) b = ground arith

same_ref_sound : (a b : OwnerReference) → same_ref (some a) (some b) ≡ true → a ≡ b
unfolding same_ref
same_ref_sound a b h = ground (
  arith,
  eq_iff a.api_version b.api_version,
  eq_iff a.kind b.kind,
  eq_iff a.name b.name,
  eq_iff a.uid b.uid,
  same_flag_iff a.controller b.controller,
  same_flag_iff a.block_owner_deletion b.block_owner_deletion,
)

same_ref_self : (a : Option OwnerReference) → same_ref a a ≡ true
unfolding same_ref
same_ref_self none = refl
same_ref_self (some a) = ground (
  arith,
  eq_self a.api_version,
  eq_self a.kind,
  eq_self a.name,
  eq_self a.uid,
  (same_flag_iff a.controller a.controller).1 refl,
  (same_flag_iff a.block_owner_deletion a.block_owner_deletion).1 refl,
)

pub same_ref_iff : (a b : Option OwnerReference) → (same_ref a b ≡ true) ↔ (a ≡ b)
same_ref_iff a b = (sound a b, λ e. rw e (same_ref_self b))
  where
    sound : (a b : Option OwnerReference) → same_ref a b ≡ true → a ≡ b
    sound none none h = refl
    sound none (some b) h = unfold same_ref in cc
    sound (some a) none h = unfold same_ref in cc
    sound (some a) (some b) h = cc (same_ref_sound a b h)

profile_update-answers :
    (before after : Presence) (deletion : Bool) → profile_update before after (some deletion) ≢ none
unfolding profile_update
profile_update-answers before after deletion = ground arith

managed_update-answers :
    (old_has new_has : Bool) (rest : Option Bool)
    → rest ≢ none
    → managed_update old_has new_has rest ≢ none
unfolding managed_update
managed_update-answers old_has new_has rest h = ground arith

some≢none : {b : Bool} → some b ≢ none
some≢none = ground arith

or_rest-answers : (test : Bool) (rest : Option Bool) → rest ≢ none → or_rest (some test) rest ≢ none
or_rest-answers true rest h = some≢none
or_rest-answers false rest h = h

-- No predicate calls a method on a nil object, whatever event it is given.
pub lifecycles_never_panic :
    (annotation managed_label profile_key : String) (e : WatchEvent)
    → (profile_annotation_lifecycle annotation e ≢ none)
      × (managed_vpa_structural_lifecycle managed_label e ≢ none)
      × (managed_vpa_lifecycle managed_label profile_key e ≢ none)
unfolding profile_annotation_lifecycle managed_vpa_structural_lifecycle managed_vpa_lifecycle
    deletion_just_started operator_labels_changed
lifecycles_never_panic a m p (create o) = ground arith
lifecycles_never_panic a m p (delete o) = ground arith
lifecycles_never_panic a m p (generic o) = ground arith
lifecycles_never_panic a m p (update none none) = ground arith
lifecycles_never_panic a m p (update none (some new)) = ground arith
lifecycles_never_panic a m p (update (some old) none) = ground arith
lifecycles_never_panic a m p (update (some old) (some new)) = (
  search profile_update-answers,
  search (managed_update-answers, or_rest-answers, some≢none),
  search (managed_update-answers, or_rest-answers, some≢none),
)

-- Every event that the predicate of the VPA controller lets through is let through by the predicate of
-- the workload controllers for the VPAs that they own.
pub structural-implies-lifecycle :
    (managed_label profile_key : String) (e : WatchEvent)
    → managed_vpa_structural_lifecycle managed_label e ≡ some true
    → managed_vpa_lifecycle managed_label profile_key e ≡ some true
unfolding managed_vpa_structural_lifecycle managed_vpa_lifecycle
structural-implies-lifecycle m p (create o) h = h
structural-implies-lifecycle m p (delete o) h = h
structural-implies-lifecycle m p (generic o) h = h
structural-implies-lifecycle m p (update old new) h = ground arith
