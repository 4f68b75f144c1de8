-- ===== src/Metrics/Registry.antt =====
-- The instruments as `NewRegistry` of internal/metrics/metrics.go declares them.
use autovpa.Common.{String, List, [], ◌∷◌, length, ◌≡◌}
use autovpa.Effect.{
  Counter, vpa_created, vpa_updated, vpa_skipped, vpa_deleted_obsolete, vpa_deleted_opt_out,
  vpa_deleted_workload_gone, vpa_deleted_owner_gone, vpa_deleted_orphaned, vpa_reconcile_errors,
  Call, counter_inc, gauge_inc, gauge_dec,
}

-- The name of a metric and the names of its labels.
pub record Options : Type 0 where
  pub name : String
  pub label_names : List String

unfoldable pub counter_options : Counter → Options
counter_options vpa_created = record {
  name = "autovpa_vpa_created_total";
  label_names = "namespace" ∷ "name" ∷ "kind" ∷ "profile" ∷ [];
}
counter_options vpa_updated = record {
  name = "autovpa_vpa_updated_total";
  label_names = "namespace" ∷ "name" ∷ "kind" ∷ "profile" ∷ [];
}
counter_options vpa_skipped = record {
  name = "autovpa_vpa_skipped_total";
  label_names = "namespace" ∷ "name" ∷ "kind" ∷ "reason" ∷ [];
}
counter_options vpa_deleted_obsolete = record {
  name = "autovpa_vpa_deleted_obsolete_total";
  label_names = "namespace" ∷ "kind" ∷ [];
}
counter_options vpa_deleted_opt_out = record {
  name = "autovpa_vpa_deleted_opt_out_total";
  label_names = "namespace" ∷ "kind" ∷ [];
}
counter_options vpa_deleted_workload_gone = record {
  name = "autovpa_vpa_deleted_workload_gone_total";
  label_names = "namespace" ∷ "kind" ∷ [];
}
counter_options vpa_deleted_owner_gone = record {
  name = "autovpa_vpa_deleted_owner_gone_total";
  label_names = "namespace" ∷ "kind" ∷ [];
}
counter_options vpa_deleted_orphaned = record {
  name = "autovpa_vpa_deleted_orphaned_total";
  label_names = "namespace" ∷ [];
}
counter_options vpa_reconcile_errors = record {
  name = "autovpa_reconcile_errors_total";
  label_names = "controller" ∷ "kind" ∷ "reason" ∷ [];
}

unfoldable pub gauge_options : Options
gauge_options = record { name = "autovpa_managed_vpa"; label_names = "namespace" ∷ "profile" ∷ [] }

-- WithLabelValues panics unless it is given as many values as the instrument has labels.
abbrev pub HasItsLabels : Call → Type 0
HasItsLabels (counter_inc c labels) = length labels ≡ length (counter_options c).label_names
HasItsLabels (gauge_inc labels) = length labels ≡ length gauge_options.label_names
HasItsLabels (gauge_dec labels) = length labels ≡ length gauge_options.label_names
HasItsLabels _ = Unit
