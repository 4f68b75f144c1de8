-- ===== src/Metrics.antt =====
-- internal/metrics/metrics.go: the registry's instruments and its methods. A method is the call
-- that it makes on its instrument; Prometheus itself is not modelled.
pub mod Registry
pub mod Labels
pub mod Setup
pub mod Registered
mod Tests
use autovpa.Common.{String, List, [], ◌∷◌}
use autovpa.Effect.{
  Counter, vpa_created, vpa_updated, vpa_skipped, vpa_deleted_obsolete, vpa_deleted_opt_out,
  vpa_deleted_workload_gone, vpa_deleted_owner_gone, vpa_deleted_orphaned, vpa_reconcile_errors,
  counter_inc, gauge_inc, gauge_dec, Action, emit,
}

module _ {W : Type 0} where
  unfoldable pub inc_vpa_created : (namespace name kind profile : String) → Action W Unit
  unfolding emit
  inc_vpa_created namespace name kind profile =
      emit (counter_inc vpa_created (namespace ∷ name ∷ kind ∷ profile ∷ []))

  unfoldable pub inc_vpa_updated : (namespace name kind profile : String) → Action W Unit
  unfolding emit
  inc_vpa_updated namespace name kind profile =
      emit (counter_inc vpa_updated (namespace ∷ name ∷ kind ∷ profile ∷ []))

  unfoldable pub inc_vpa_skipped : (namespace name kind reason : String) → Action W Unit
  unfolding emit
  inc_vpa_skipped namespace name kind reason =
      emit (counter_inc vpa_skipped (namespace ∷ name ∷ kind ∷ reason ∷ []))

  unfoldable pub inc_vpa_deleted_obsolete : (namespace kind : String) → Action W Unit
  unfolding emit
  inc_vpa_deleted_obsolete namespace kind =
      emit (counter_inc vpa_deleted_obsolete (namespace ∷ kind ∷ []))

  unfoldable pub inc_vpa_deleted_opt_out : (namespace kind : String) → Action W Unit
  unfolding emit
  inc_vpa_deleted_opt_out namespace kind =
      emit (counter_inc vpa_deleted_opt_out (namespace ∷ kind ∷ []))

  unfoldable pub inc_vpa_deleted_workload_gone : (namespace kind : String) → Action W Unit
  unfolding emit
  inc_vpa_deleted_workload_gone namespace kind =
      emit (counter_inc vpa_deleted_workload_gone (namespace ∷ kind ∷ []))

  unfoldable pub inc_vpa_deleted_owner_gone : (namespace kind : String) → Action W Unit
  unfolding emit
  inc_vpa_deleted_owner_gone namespace kind =
      emit (counter_inc vpa_deleted_owner_gone (namespace ∷ kind ∷ []))

  unfoldable pub inc_vpa_deleted_orphaned : (namespace : String) → Action W Unit
  unfolding emit
  inc_vpa_deleted_orphaned namespace = emit (counter_inc vpa_deleted_orphaned (namespace ∷ []))

  unfoldable pub inc_vpa_managed : (namespace profile : String) → Action W Unit
  unfolding emit
  inc_vpa_managed namespace profile = emit (gauge_inc (namespace ∷ profile ∷ []))

  unfoldable pub dec_vpa_managed : (namespace profile : String) → Action W Unit
  unfolding emit
  dec_vpa_managed namespace profile = emit (gauge_dec (namespace ∷ profile ∷ []))

  unfoldable pub inc_reconcile_errors : (controller kind reason : String) → Action W Unit
  unfolding emit
  inc_reconcile_errors controller kind reason =
      emit (counter_inc vpa_reconcile_errors (controller ∷ kind ∷ reason ∷ []))
