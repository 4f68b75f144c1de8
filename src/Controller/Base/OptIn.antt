-- ===== src/Controller/Base/OptIn.antt =====
-- When a workload is opted in, by internal/controller/base_reconciler.go and internal/predicates.
use autovpa.Common.{
  true, none, some, [], ◌∷◌, eq_iff, arith, ◌≡◌, refl, index?, index, if◌then◌else◌,
}
use autovpa.Kube.{Object, GroupVersionKind, ok}
use autovpa.Effect.{counter_inc, record_event, warning, vpa_skipped, ◌>>=◌, emit}
use autovpa.Utils.{default_if_zero}
use autovpa.Predicates.{has_non_empty_annotation}
use autovpa.Controller.Base.Desired.{BaseReconciler}
use autovpa.Controller.Base.{opt_out, reconcile_profile, reconcile_workload}

module _ {W : Type 0} (b : BaseReconciler W) (obj : Object) (gvk : GroupVersionKind) where
  -- A workload is reconciled with the profile that its annotation names if the predicates call it
  -- opted in, and treated as opted out otherwise. The default profile plays no part in this.
  pub reconcile_workload_lem : reconcile_workload b obj gvk ≡ (
      if has_non_empty_annotation (some obj) b.meta.profile_key
      then reconcile_profile b obj gvk
          (index obj.annotations b.meta.profile_key)
          (index? b.profiles.entries (index obj.annotations b.meta.profile_key))
      else opt_out b obj gvk)
  unfolding reconcile_workload has_non_empty_annotation default_if_zero index index?
  reconcile_workload_lem = ground (arith, eq_iff (index obj.annotations b.meta.profile_key) "")

  -- A workload that asks for a profile that does not exist gets an event and a metric, and nothing
  -- else happens: no call of the client, and no error, so that it is not queued again.
  pub missing_profile_harmless :
      (w : W)
      → has_non_empty_annotation (some obj) b.meta.profile_key ≡ true
      → index? b.profiles.entries (index obj.annotations b.meta.profile_key) ≡ none
      → reconcile_workload b obj gvk w ≡ record {
        result = ok tt;
        world = w;
        calls =
            record_event (record {
              regarding = obj.name;
              related = none;
              type = warning;
              reason = "ProfileNotFound";
              action = "SkipVPA";
              args = index obj.annotations b.meta.profile_key ∷ [];
            })
            ∷ counter_inc vpa_skipped (obj.namespace ∷ obj.name ∷ gvk.kind ∷ "profile_missing" ∷ [])
            ∷ [];
      }
  missing_profile_harmless w opted missing =
      rw (reconcile_workload_lem, opted, missing) (unfold reconcile_profile ◌>>=◌ emit in refl)
