-- ===== src/Predicates/Tests.antt =====
-- The theorems about the predicates at concrete objects.
use autovpa.Common.{true, false, none, some, [], ◌∷◌, ◌≡◌, ◌≢◌, ◌↔◌, ◌⊎◌, refl}
use autovpa.Kube.{Object, unstructured}
use autovpa.Kube.Json.{Value}
use autovpa.Predicates.{
  update, annotation_value, deletion_just_started, has_true_label, profile_annotation_lifecycle,
  managed_vpa_structural_lifecycle, managed_vpa_lifecycle,
}
use autovpa.Predicates.Laws.{lifecycles_never_panic, structural-implies-lifecycle}
use autovpa.Predicates.Updates.{IsQuiet, profile_update_iff, managed_update-IsQuiet_iff}
use autovpa.Samples.{api, stale_vpa}

abbrev silver_api : Object
silver_api = record api { annotations = some (("profile", "silver") ∷ []) }

abbrev tampered_vpa : Object
tampered_vpa = record stale_vpa { body = unstructured (Value.text "tampered") }

-- The managed label is taken away.
abbrev released_vpa : Object
released_vpa = record stale_vpa { labels = none }

profile_update_iff_example :
    (profile_annotation_lifecycle "profile" (update (some api) (some silver_api)) ≡ some true) ↔ (
      (annotation_value (some api) "profile" ≢ annotation_value (some silver_api) "profile")
      ⊎ (((annotation_value (some silver_api) "profile").present ≡ true)
          × (deletion_just_started (some api) (some silver_api) ≡ some true)))
profile_update_iff_example = profile_update_iff "profile" api silver_api

managed_update-IsQuiet_iff_example :
    (managed_vpa_lifecycle "managed" "profile" (update (some stale_vpa) (some tampered_vpa))
      ≡ some false)
    ↔ IsQuiet "managed" "profile" stale_vpa tampered_vpa Value.null (Value.text "tampered")
unfolding has_true_label
managed_update-IsQuiet_iff_example =
    managed_update-IsQuiet_iff "managed" "profile" stale_vpa tampered_vpa Value.null
      (Value.text "tampered") refl refl refl

structural-implies-lifecycle_example :
    managed_vpa_lifecycle "managed" "profile" (update (some stale_vpa) (some released_vpa))
    ≡ some true
unfolding managed_vpa_structural_lifecycle
structural-implies-lifecycle_example =
    structural-implies-lifecycle "managed" "profile" (update (some stale_vpa) (some released_vpa))
      refl

lifecycles_never_panic_example :
    (profile_annotation_lifecycle "profile" (update none (some api)) ≢ none)
    × (managed_vpa_structural_lifecycle "managed" (update none (some api)) ≢ none)
    × (managed_vpa_lifecycle "managed" "profile" (update none (some api)) ≢ none)
lifecycles_never_panic_example =
    lifecycles_never_panic "profile" "managed" "profile" (update none (some api))
