-- ===== src/Effect/Counts.antt =====
-- Tests on calls, by which statements count them.
use autovpa.Common.{Bool, true, false}
use autovpa.Kube.{ok}
use autovpa.Effect.{
  Call, get_object, list_objects, delete_object, patch_object, counter_inc, gauge_inc, gauge_dec,
  vpa_reconcile_errors,
}

abbrev pub is_delete : Call → Bool
is_delete (delete_object _ _) = true
is_delete _ = false

abbrev pub is_patch : Call → Bool
is_patch (patch_object _ _ _) = true
is_patch _ = false

-- A deletion that the client confirmed
abbrev pub succeeded : Call → Bool
succeeded (delete_object _ (ok _)) = true
succeeded _ = false

abbrev pub is_gauge_dec : Call → Bool
is_gauge_dec (gauge_dec _) = true
is_gauge_dec _ = false

-- A change of the gauge of managed VPAs
abbrev pub is_gauge : Call → Bool
is_gauge (gauge_inc _) = true
is_gauge (gauge_dec _) = true
is_gauge _ = false

abbrev pub is_error_count : Call → Bool
is_error_count (counter_inc vpa_reconcile_errors _) = true
is_error_count _ = false

-- A request to the API server
abbrev pub is_request : Call → Bool
is_request (get_object _ _ _) = true
is_request (list_objects _ _ _ _ _) = true
is_request (delete_object _ _) = true
is_request (patch_object _ _ _) = true
is_request _ = false
