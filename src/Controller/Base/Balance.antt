-- ===== src/Controller/Base/Balance.antt =====
-- The gauge of managed VPAs and the deletions of internal/controller/base_reconciler.go.
use autovpa.Common.{
  String, some, List, [], ◌∷◌, ◌≡◌, refl, arith, count_if, count_if-append, ◌++◌, Option,
}
use autovpa.Kube.{OwnerReference, Object, Result, ok, err}
use autovpa.Effect.{Call, Action, Outcome, continue, ◌>>=◌, emit, delete, list}
use autovpa.Effect.Counts.{succeeded, is_gauge_dec}
use autovpa.Metrics.{
  inc_vpa_deleted_obsolete, inc_vpa_deleted_opt_out, inc_vpa_deleted_workload_gone, dec_vpa_managed,
}
use autovpa.Controller.Base.Desired.{BaseReconciler, as_listed, list_managed_vpas}
use autovpa.Controller.Base.Delete.{
  obsolete_deleted, delete_obsolete_one, delete_obsolete_loop, delete_obsolete_managed_vpas,
  managed_deleted, delete_managed_ref, delete_managed_refs, delete_managed_loop,
  delete_managed_vpas, count_opt_out, count_gone, delete_managed_vpas_for_opt_out,
  delete_managed_vpas_for_gone_workload,
}

-- As many calls lower the gauge as deletions were confirmed.
abbrev pub IsBalanced : List Call → Type 0
IsBalanced calls = count_if succeeded calls ≡ count_if is_gauge_dec calls

IsBalanced-append : (xs ys : List Call) → IsBalanced xs → IsBalanced ys → IsBalanced (xs ++ ys)
IsBalanced-append xs ys hx hy =
    omega (arith, hx, hy, count_if-append succeeded xs ys, count_if-append is_gauge_dec xs ys)

-- An action all of whose runs are balanced.
pub record Balances {W A : Type 0} (m : Action W A) : Type 0 where
  pub at : (w : W) → IsBalanced (m w).calls

module _ {W A B : Type 0} where
  continue-IsBalanced :
      (o : Outcome W A) (r : Result A) (f : A → Action W B)
      → IsBalanced o.calls
      → ((a : A) → Balances (f a))
      → IsBalanced (continue o r f).calls
  continue-IsBalanced o (ok a) f h hf =
      IsBalanced-append o.calls (f a o.world).calls h ((hf a).at o.world)
  continue-IsBalanced o (err e) f h hf = h

  Balances-bind :
      (m : Action W A) (f : A → Action W B)
      → Balances m
      → ((a : A) → Balances (f a))
      → Balances (m >>= f)
  unfolding ◌>>=◌
  Balances-bind m f hm hf = record {
    at = λ w. continue-IsBalanced (m w) (m w).result f (hm.at w) hf;
  }

module _ {W : Type 0} (b : BaseReconciler W) where
  list_managed_vpas-Balances : (ns : String) → Balances (list_managed_vpas b ns)
  unfolding list_managed_vpas ◌>>=◌ list as_listed
  list_managed_vpas-Balances ns = record { at = λ w. ground arith }

  module _ (owner : Object) (kind : String) where
    delete_obsolete_one-Balances :
        (keep : String) (vpa : Object) → Balances (delete_obsolete_one b owner kind keep vpa)
    unfolding delete_obsolete_one obsolete_deleted inc_vpa_deleted_obsolete dec_vpa_managed ◌>>=◌
        delete emit
    delete_obsolete_one-Balances keep vpa = record { at = λ w. ground arith }

    delete_obsolete_loop-Balances :
        (keep : String) (vpas : List Object)
        → Balances (delete_obsolete_loop b owner kind keep vpas)
    unfolding delete_obsolete_loop
    delete_obsolete_loop-Balances keep [] = record { at = λ w. refl }
    delete_obsolete_loop-Balances keep (vpa ∷ vpas) =
        Balances-bind _ _ (delete_obsolete_one-Balances keep vpa)
          (λ _. delete_obsolete_loop-Balances keep vpas)

    -- Whatever the client answers, a deletion that fails or finds the VPA gone included, the cleanup of
    -- obsolete VPAs lowers the gauge of managed VPAs once for each deletion that was confirmed.
    pub delete_obsolete_managed_vpas-Balances :
        (keep : String) → Balances (delete_obsolete_managed_vpas b owner kind keep)
    unfolding delete_obsolete_managed_vpas
    delete_obsolete_managed_vpas-Balances keep =
        Balances-bind _ _ (list_managed_vpas-Balances owner.namespace)
          (delete_obsolete_loop-Balances keep)

    module _ (on_delete : Option (String → String → Action W Unit))
        (ref-Balances : (vpa : Object) (ref : OwnerReference)
          → Balances (delete_managed_ref b owner kind on_delete vpa ref)) where
      delete_managed_refs-Balances :
          (vpa : Object) (refs : List OwnerReference)
          → Balances (delete_managed_refs b owner kind on_delete vpa refs)
      unfolding delete_managed_refs
      delete_managed_refs-Balances vpa [] = record { at = λ w. refl }
      delete_managed_refs-Balances vpa (ref ∷ refs) =
          Balances-bind _ _ (ref-Balances vpa ref) (λ _. delete_managed_refs-Balances vpa refs)

      delete_managed_loop-Balances :
          (vpas : List Object) → Balances (delete_managed_loop b owner kind on_delete vpas)
      unfolding delete_managed_loop
      delete_managed_loop-Balances [] = record { at = λ w. refl }
      delete_managed_loop-Balances (vpa ∷ vpas) =
          Balances-bind _ _ (delete_managed_refs-Balances vpa vpa.owner_references)
            (λ _. delete_managed_loop-Balances vpas)

      delete_managed_vpas-Balances : Balances (delete_managed_vpas b owner kind on_delete)
      unfolding delete_managed_vpas
      delete_managed_vpas-Balances =
          Balances-bind _ _ (list_managed_vpas-Balances owner.namespace)
            delete_managed_loop-Balances

    opt_out_ref-Balances :
        (vpa : Object) (ref : OwnerReference)
        → Balances (delete_managed_ref b owner kind (some (count_opt_out b owner kind)) vpa ref)
    unfolding delete_managed_ref managed_deleted count_opt_out inc_vpa_deleted_opt_out
        dec_vpa_managed ◌>>=◌ delete emit
    opt_out_ref-Balances vpa ref = record { at = λ w. ground arith }

    gone_ref-Balances :
        (vpa : Object) (ref : OwnerReference)
        → Balances (delete_managed_ref b owner kind (some (count_gone b owner kind)) vpa ref)
    unfolding delete_managed_ref managed_deleted count_gone inc_vpa_deleted_workload_gone
        dec_vpa_managed ◌>>=◌ delete emit
    gone_ref-Balances vpa ref = record { at = λ w. ground arith }

    -- The cleanups on opting out and for a workload that is gone, too, lower the gauge of managed VPAs
    -- once for each deletion that was confirmed, whatever the client answers.
    pub opted_out_or_gone-Balances :
        Balances (delete_managed_vpas_for_opt_out b owner kind)
        × Balances (delete_managed_vpas_for_gone_workload b owner kind)
    unfolding delete_managed_vpas_for_opt_out delete_managed_vpas_for_gone_workload
    opted_out_or_gone-Balances = (
      delete_managed_vpas-Balances (some (count_opt_out b owner kind)) opt_out_ref-Balances,
      delete_managed_vpas-Balances (some (count_gone b owner kind)) gone_ref-Balances,
    )
