-- ===== src/Metrics/Setup.antt =====
-- `NewRegistry` of internal/metrics/metrics.go: the ten instruments and their registration. Prometheus
-- is a parameter.
use autovpa.Common.{Option, none, some, List, [], ◌∷◌}
use autovpa.Effect.{
  vpa_created, vpa_updated, vpa_skipped, vpa_deleted_obsolete, vpa_deleted_opt_out,
  vpa_deleted_workload_gone, vpa_deleted_owner_gone, vpa_deleted_orphaned, vpa_reconcile_errors,
}
use autovpa.Metrics.Registry.{Options, counter_options, gauge_options}

-- NewCounterVec and NewGaugeVec with what they are given.
pub data Collector : Type 0 where
  counter_vec : Options → Collector
  gauge_vec : Options → Collector

abbrev pub collector_options : Collector → Options
collector_options (counter_vec o) = o
collector_options (gauge_vec o) = o

-- A prometheus.Registerer whose state is in `S`. `none` is an error of Register, and the panic of
-- MustRegister.
pub record Registerer (S : Type 0) : Type 0 where
  pub register : Collector → S → Option S
  pub must_register : List Collector → S → Option S

pub record Registry (S : Type 0) : Type 0 where
  pub reg : Registerer S
  pub vpa_created : Collector
  pub vpa_updated : Collector
  pub vpa_skipped : Collector
  pub vpa_deleted_obsolete : Collector
  pub vpa_deleted_opt_out : Collector
  pub vpa_deleted_workload_gone : Collector
  pub vpa_deleted_owner_gone : Collector
  pub vpa_deleted_orphaned : Collector
  pub vpa_managed : Collector
  pub vpa_reconcile_errors : Collector

abbrev pub default_if_nil : {S : Type 0} → Registerer S → Option (Registerer S) → Registerer S
default_if_nil default_registerer none = default_registerer
default_if_nil default_registerer (some reg) = reg

abbrev pub instruments : {S : Type 0} → Registry S → List Collector
instruments r =
    r.vpa_created ∷ r.vpa_updated ∷ r.vpa_skipped ∷ r.vpa_deleted_obsolete ∷ r.vpa_deleted_opt_out
    ∷ r.vpa_deleted_workload_gone ∷ r.vpa_deleted_owner_gone ∷ r.vpa_deleted_orphaned
    ∷ r.vpa_managed ∷ r.vpa_reconcile_errors ∷ []

abbrev pub answer : {S R : Type 0} → R → Option S → Option (R × S)
answer r none = none
answer r (some s) = some (r, s)

abbrev pub registry_with : {S : Type 0} → Registerer S → Registry S
registry_with reg = record {
  reg = reg;
  vpa_created = counter_vec (counter_options vpa_created);
  vpa_updated = counter_vec (counter_options vpa_updated);
  vpa_skipped = counter_vec (counter_options vpa_skipped);
  vpa_deleted_obsolete = counter_vec (counter_options vpa_deleted_obsolete);
  vpa_deleted_opt_out = counter_vec (counter_options vpa_deleted_opt_out);
  vpa_deleted_workload_gone = counter_vec (counter_options vpa_deleted_workload_gone);
  vpa_deleted_owner_gone = counter_vec (counter_options vpa_deleted_owner_gone);
  vpa_deleted_orphaned = counter_vec (counter_options vpa_deleted_orphaned);
  vpa_managed = gauge_vec gauge_options;
  vpa_reconcile_errors = counter_vec (counter_options vpa_reconcile_errors);
}

module _ {S : Type 0} (default_registerer : Registerer S) where
  unfoldable pub new_registry : Option (Registerer S) → S → Option (Registry S × S)
  unfolding counter_options gauge_options
  new_registry given s =
      let reg = default_if_nil default_registerer given in
      let r = registry_with reg in answer r (reg.must_register (instruments r) s)
