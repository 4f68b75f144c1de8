-- ===== src/Controller/Base/DefaultProfile.antt =====
-- ProfileConfig.Default, by internal/controller/base_reconciler.go.
use autovpa.Common.{String, Option, none, some, List, [], ◌∷◌, ◌≡◌, refl, ap, ap₂, fun_ext}
use autovpa.Kube.{Object, GroupVersionKind, OwnerReference}
use autovpa.Effect.{◌>>◌}
use autovpa.Config.{Profile}
use autovpa.Controller.Base.Desired.{BaseReconciler, fetch_existing_vpa, list_managed_vpas}
use autovpa.Controller.Base.Delete.{
  delete_obsolete_loop, delete_obsolete_managed_vpas, delete_managed_refs, delete_managed_loop,
  delete_managed_vpas_for_opt_out, count_opt_out, delete_managed_vpas, delete_obsolete_one,
  delete_managed_ref,
}
use autovpa.Controller.Base.{reconcile_workload, reconcile_profile, opt_out}
use autovpa.Controller.Base.OptIn.{reconcile_workload_lem}

module _ {W : Type 0} (b : BaseReconciler W) (d : String) (obj : Object)
    (gvk : GroupVersionKind) where
  abbrev with_default : BaseReconciler W
  with_default = record b { profiles = record b.profiles { default = d } }

  loop_same :
      (kind keep : String) (vpas : List Object)
      → delete_obsolete_loop with_default obj kind keep vpas
        ≡ delete_obsolete_loop b obj kind keep vpas
  unfolding delete_obsolete_loop
  loop_same kind keep [] = refl
  loop_same kind keep (vpa ∷ vpas) =
      ap (λ rest. delete_obsolete_one b obj kind keep vpa >> rest) (loop_same kind keep vpas)

  refs_same :
      (kind : String) (vpa : Object) (refs : List OwnerReference)
      → delete_managed_refs with_default obj kind
          (some (count_opt_out with_default obj kind))
          vpa
          refs
        ≡ delete_managed_refs b obj kind (some (count_opt_out b obj kind)) vpa refs
  unfolding delete_managed_refs count_opt_out
  refs_same kind vpa [] = refl
  refs_same kind vpa (ref ∷ refs) =
      ap (λ rest. delete_managed_ref b obj kind (some (count_opt_out b obj kind)) vpa ref >> rest)
        (refs_same kind vpa refs)

  managed_same :
      (kind : String) (vpas : List Object)
      → delete_managed_loop with_default obj kind (some (count_opt_out with_default obj kind)) vpas
        ≡ delete_managed_loop b obj kind (some (count_opt_out b obj kind)) vpas
  unfolding delete_managed_loop
  managed_same kind [] = refl
  managed_same kind (vpa ∷ vpas) =
      ap₂ (λ m n. m >> n) (refs_same kind vpa vpa.owner_references) (managed_same kind vpas)

  opt_out_same : opt_out with_default obj gvk ≡ opt_out b obj gvk
  unfolding opt_out delete_managed_vpas_for_opt_out delete_managed_vpas list_managed_vpas
  opt_out_same = rw (fun_ext (managed_same gvk.kind))

  obsolete_same :
      (kind keep : String)
      → delete_obsolete_managed_vpas with_default obj kind keep
        ≡ delete_obsolete_managed_vpas b obj kind keep
  unfolding delete_obsolete_managed_vpas list_managed_vpas
  obsolete_same kind keep = rw (fun_ext (loop_same kind keep))

  profile_same :
      (selected : String) (chosen : Option Profile)
      → reconcile_profile with_default obj gvk selected chosen
        ≡ reconcile_profile b obj gvk selected chosen
  unfolding reconcile_profile fetch_existing_vpa
  profile_same selected none = refl
  profile_same selected (some profile) = simp obsolete_same

  -- The default profile of the configuration is never used: reconciling a workload does the same
  -- whatever it is, also for a workload whose annotation says "default".
  pub default_profile_unused :
      reconcile_workload with_default obj gvk ≡ reconcile_workload b obj gvk
  default_profile_unused =
      rw (reconcile_workload_lem with_default obj gvk, reconcile_workload_lem b obj gvk)
        (cc (opt_out_same, profile_same _ _))
