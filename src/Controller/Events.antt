-- ===== src/Controller/Events.antt =====
-- The texts of the events and metrics of internal/controller: the constants of base_reconciler.go and
-- vpa_reconciler.go.
use autovpa.Common.{String}

abbrev pub vpa_event_profile_annotation_missing : String
vpa_event_profile_annotation_missing = "ProfileAnnotationMissing"

abbrev pub vpa_event_profile_not_found : String
vpa_event_profile_not_found = "ProfileNotFound"

abbrev pub vpa_event_deleted_managed_vpa : String
vpa_event_deleted_managed_vpa = "DeletedManagedVPA"

abbrev pub vpa_event_deleted_obsolete_vpa : String
vpa_event_deleted_obsolete_vpa = "DeletedObsoleteVPA"

abbrev pub vpa_event_vpa_created : String
vpa_event_vpa_created = "VPACreated"

abbrev pub vpa_event_vpa_updated : String
vpa_event_vpa_updated = "VPAUpdated"

abbrev pub vpa_action_skip_vpa : String
vpa_action_skip_vpa = "SkipVPA"

abbrev pub vpa_action_create_vpa : String
vpa_action_create_vpa = "CreateVPA"

abbrev pub vpa_action_update_vpa : String
vpa_action_update_vpa = "UpdateVPA"

abbrev pub vpa_action_delete_vpa : String
vpa_action_delete_vpa = "DeleteVPA"

abbrev pub vpa_skip_reason_annotation_missing : String
vpa_skip_reason_annotation_missing = "annotation_missing"

abbrev pub vpa_skip_reason_profile_missing : String
vpa_skip_reason_profile_missing = "profile_missing"

abbrev pub vpa_event_orphaned : String
vpa_event_orphaned = "OrphanedVPA"

abbrev pub vpa_event_owner_deleted : String
vpa_event_owner_deleted = "OwnerDeleted"
