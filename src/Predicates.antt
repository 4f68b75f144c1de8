-- ===== src/Predicates.antt =====
-- internal/predicates: which watch events enqueue a reconciliation. A `client.Object` may be nil.
-- A method call on a nil object panics; where a test can do so its answer is optional, and `none`
-- stands for the panic.
pub mod Laws
pub mod Updates
mod Tests
use autovpa.Common.{
  String, Bool, true, false, not, ◌&&◌, Option, none, some, List, [], ◌∷◌, Map, index?, index, ◌==◌,
  if◌then◌else◌,
}
use autovpa.Kube.{OwnerReference, Object, typed, unstructured, is_zero_time}
use autovpa.Kube.Json.{Value, value_equal}

-- controller-runtime's events
pub data WatchEvent : Type 0 where
  create : Option Object → WatchEvent
  update : (old new : Option Object) → WatchEvent
  delete : Option Object → WatchEvent
  generic : Option Object → WatchEvent

-- A value and whether it is present
pub record Presence : Type 0 where
  pub value : String
  pub present : Bool

abbrev pub absent : Presence
absent = record { value = ""; present = false }

abbrev presence : Option String → Presence
presence none = absent
presence (some v) = if v == "" then absent else record { value = v; present = true }

unfoldable pub annotation_value : Option Object → String → Presence
annotation_value none key = absent
annotation_value (some obj) key = elim obj.annotations [
  | none ↦ absent
  | some ann ↦ presence (index? (some ann) key)
]

unfoldable pub has_non_empty_annotation : Option Object → String → Bool
unfolding annotation_value
has_non_empty_annotation obj key = (annotation_value obj key).present

unfoldable pub has_true_label : Option Object → String → Bool
unfolding index
has_true_label none key = false
has_true_label (some obj) key = elim obj.labels [
  | none ↦ false
  | some labels ↦ index (some labels) key == "true"
]

unfoldable pub deletion_just_started : (old new : Option Object) → Option Bool
unfolding is_zero_time
deletion_just_started none new = none
deletion_just_started (some old) none =
    if is_zero_time old.deletion_timestamp then none else some false
deletion_just_started (some old) (some new) =
    some (is_zero_time old.deletion_timestamp && not (is_zero_time new.deletion_timestamp))

-- The first reference with `controller: true`
unfoldable pub first_controller : List OwnerReference → Option OwnerReference
first_controller [] = none
first_controller (ref ∷ refs) =
    let rest = first_controller refs in
    elim ref.controller [ none ↦ rest | some flag ↦ if flag then some ref else rest ]

unfoldable pub controller_owner_ref : Option Object → Option OwnerReference
unfolding first_controller
controller_owner_ref none = none
controller_owner_ref (some obj) = first_controller obj.owner_references

unfoldable pub same_flag : Option Bool → Option Bool → Bool
same_flag none none = true
same_flag (some true) (some b) = b
same_flag (some false) (some b) = not b
same_flag _ _ = false

-- reflect.DeepEqual on pointers to owner references
unfoldable pub same_ref : Option OwnerReference → Option OwnerReference → Bool
unfolding same_flag
same_ref none none = true
same_ref (some a) (some b) =
    (a.api_version == b.api_version)
    && ((a.kind == b.kind)
        && ((a.name == b.name)
            && ((a.uid == b.uid)
                && (same_flag a.controller b.controller
                    && same_flag a.block_owner_deletion b.block_owner_deletion))))
same_ref _ _ = false

unfoldable pub controller_owner_ref_changed : (old new : Option Object) → Bool
unfolding controller_owner_ref same_ref
controller_owner_ref_changed old new =
    not (same_ref (controller_owner_ref old) (controller_owner_ref new))

-- The spec of an object that is an *unstructured.Unstructured
unfoldable pub unstructured_object : Option Object → Option Value
unstructured_object none = none
unstructured_object (some obj) = elim obj.body [ typed ↦ none | unstructured spec ↦ some spec ]

abbrev pub changed : Option Value → Option Value → Bool
changed (some old) (some new) = not (value_equal old new)
changed _ _ = false

unfoldable pub spec_changed : (old new : Option Object) → Bool
unfolding unstructured_object
spec_changed old new = changed (unstructured_object old) (unstructured_object new)

unfoldable pub labels_differ : (old new : Map String) → List String → Bool
labels_differ old new [] = false
labels_differ old new (k ∷ keys) =
    let rest = labels_differ old new keys in if not (index old k == index new k) then true else rest

unfoldable pub operator_labels_changed : (old new : Option Object) → List String → Option Bool
unfolding labels_differ
operator_labels_changed none new keys = none
operator_labels_changed (some old) none keys = none
operator_labels_changed (some old) (some new) keys = some (labels_differ old.labels new.labels keys)

-- `if test { return true }` and the rest, where the test may panic
abbrev pub or_rest : Option Bool → Option Bool → Option Bool
or_rest none rest = none
or_rest (some true) rest = some true
or_rest (some false) rest = rest

abbrev pub differ : Bool → Bool → Bool
differ true b = not b
differ false b = b

-- The tests of ProfileAnnotationLifecycle's UpdateFunc, on the old and the new value.
unfoldable pub profile_update : (before after : Presence) → (deletion : Option Bool) → Option Bool
profile_update before after deletion =
    if differ before.present after.present
    then some true
    else if not after.present
    then some false
    else if not (before.value == after.value)
    then some true
    else or_rest deletion (some false)

unfoldable pub profile_annotation_lifecycle : (annotation : String) → WatchEvent → Option Bool
unfolding profile_update annotation_value has_non_empty_annotation deletion_just_started
profile_annotation_lifecycle annotation (create obj) =
    some (has_non_empty_annotation obj annotation)
profile_annotation_lifecycle annotation (update old new) =
    profile_update (annotation_value old annotation) (annotation_value new annotation)
      (deletion_just_started old new)
profile_annotation_lifecycle annotation (delete obj) =
    some (has_non_empty_annotation obj annotation)
profile_annotation_lifecycle annotation (generic obj) = some false

-- The tests on the managed label with which both VPA predicates begin.
unfoldable pub managed_update : (old_has new_has : Bool) → (rest : Option Bool) → Option Bool
managed_update old_has new_has rest =
    if differ old_has new_has then some true else if not new_has then some false else rest

unfoldable pub managed_vpa_structural_lifecycle :
    (managed_label : String) → WatchEvent → Option Bool
unfolding managed_update has_true_label deletion_just_started controller_owner_ref_changed
managed_vpa_structural_lifecycle managed_label (create obj) =
    some (has_true_label obj managed_label)
managed_vpa_structural_lifecycle managed_label (update old new) =
    managed_update (has_true_label old managed_label) (has_true_label new managed_label)
      (or_rest (deletion_just_started old new) (some (controller_owner_ref_changed old new)))
managed_vpa_structural_lifecycle managed_label (delete obj) =
    some (has_true_label obj managed_label)
managed_vpa_structural_lifecycle managed_label (generic obj) = some false

unfoldable pub managed_vpa_lifecycle :
    (managed_label profile_key : String) → WatchEvent → Option Bool
unfolding managed_update has_true_label deletion_just_started controller_owner_ref_changed
    operator_labels_changed spec_changed
managed_vpa_lifecycle managed_label profile_key (create obj) =
    some (has_true_label obj managed_label)
managed_vpa_lifecycle managed_label profile_key (update old new) =
    managed_update (has_true_label old managed_label) (has_true_label new managed_label) (
      or_rest (deletion_just_started old new) (
        or_rest (some (controller_owner_ref_changed old new)) (
          or_rest (operator_labels_changed old new (managed_label ∷ profile_key ∷ []))
            (some (spec_changed old new)))))
managed_vpa_lifecycle managed_label profile_key (delete obj) =
    some (has_true_label obj managed_label)
managed_vpa_lifecycle managed_label profile_key (generic obj) = some false
