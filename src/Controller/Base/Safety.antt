-- ===== src/Controller/Base/Safety.antt =====
-- Which VPAs the cleanup of internal/controller/base_reconciler.go may delete, whatever the client
-- answers.
use autovpa.Common.{
  String, Bool, true, not, ◌||◌, some, List, [], ◌∷◌, ◌==◌, eq_iff, arith, ◌≡◌, ◌≢◌, refl, ap, any,
}
use autovpa.Kube.{OwnerReference, Object, Result, ok, err}
use autovpa.Effect.{Call, get_object, list_objects, delete_object, patch_object, Action}
use autovpa.Effect.Emits.{
  Emits, emits_rules, Emits-bind, Emits-pure, Emits-if, Emits-attempt, Emits-delete,
}
use autovpa.Controller.{vpa_list_gvk}
use autovpa.Controller.Base.Desired.{BaseReconciler, list_managed_vpas, as_listed}
use autovpa.Controller.Base.Delete.{
  obsolete_deleted, delete_obsolete_one, delete_obsolete_loop, delete_obsolete_managed_vpas,
  managed_deleted, delete_managed_ref, delete_managed_refs, delete_managed_loop,
  delete_managed_vpas, count_opt_out, count_gone, delete_managed_vpas_for_opt_out,
  delete_managed_vpas_for_gone_workload,
}

-- An owner reference that names a workload.
abbrev pub refers_to : (kind name : String) → OwnerReference → Bool
refers_to kind name ref = not (not (ref.kind == kind) || not (ref.name == name))

module _ {W : Type 0} (b : BaseReconciler W) (owner : Object) where
  -- The cleanup only lists VPAs with the managed label in the owner's namespace, never writes one,
  -- and deletes only VPAs that satisfy `May`.
  abbrev pub IsCleanup : (Object → Type 0) → Call → Type 0
  IsCleanup May (delete_object vpa r) = May vpa
  IsCleanup May (list_objects gvk ns key value r) =
      (gvk ≡ vpa_list_gvk)
      × (ns ≡ owner.namespace)
      × (key ≡ b.meta.managed_label)
      × (value ≡ "true")
  IsCleanup May (patch_object o options r) = ⊥
  IsCleanup May (get_object gvk key r) = ⊥
  IsCleanup May _ = Unit

  as_listed-Emits :
      (May : Object → Type 0) (r : Result (List Object)) → Emits (IsCleanup May) (as_listed b r)
  unfolding as_listed
  as_listed-Emits May (ok items) = search emits_rules
  as_listed-Emits May (err e) = search emits_rules

  list_request :
      (May : Object → Type 0) (r : Result (List Object))
      → IsCleanup May (list_objects vpa_list_gvk owner.namespace b.meta.managed_label "true" r)
  list_request May r = (refl, refl, refl, refl)

  list_managed_vpas-Emits :
      (May : Object → Type 0) → Emits (IsCleanup May) (list_managed_vpas b owner.namespace)
  unfolding list_managed_vpas
  list_managed_vpas-Emits May = search (emits_rules, as_listed-Emits, list_request)

  -- What may be deleted as obsolete: a VPA of another name that the workload controls.
  abbrev pub IsObsolete : (keep_name : String) → Object → Type 0
  IsObsolete keep_name vpa = (vpa.name ≢ keep_name) × (b.platform.is_controlled_by vpa owner ≡ true)

  module _ (kind keep_name : String) where
    obsolete_deleted-Emits :
        (vpa : Object) (r : Result Unit)
        → Emits (IsCleanup (IsObsolete keep_name)) (obsolete_deleted b owner kind vpa r)
    unfolding obsolete_deleted
    obsolete_deleted-Emits vpa (ok _) = search emits_rules
    obsolete_deleted-Emits vpa (err e) = search emits_rules

    delete_obsolete_one-Emits :
        (vpa : Object)
        → Emits (IsCleanup (IsObsolete keep_name)) (delete_obsolete_one b owner kind keep_name vpa)
    unfolding delete_obsolete_one
    delete_obsolete_one-Emits vpa =
        Emits-if (vpa.name == keep_name) _ _ (λ _. Emits-pure tt)
          λ other.
            Emits-if (not (b.platform.is_controlled_by vpa owner)) _ _ (λ _. Emits-pure tt)
              λ controlled.
                let obsolete : IsObsolete keep_name vpa =
                  (λ same. cc ((eq_iff vpa.name keep_name).1 same), ground arith) in
                Emits-bind _ _ (Emits-attempt _ (Emits-delete b.kube_client vpa (λ r. obsolete)))
                  (obsolete_deleted-Emits vpa)

    delete_obsolete_loop-Emits :
        (vpas : List Object)
        → Emits
            (IsCleanup (IsObsolete keep_name))
            (delete_obsolete_loop b owner kind keep_name vpas)
    unfolding delete_obsolete_loop
    delete_obsolete_loop-Emits [] = Emits-pure tt
    delete_obsolete_loop-Emits (vpa ∷ vpas) =
        Emits-bind _ _ (delete_obsolete_one-Emits vpa) (λ _. delete_obsolete_loop-Emits vpas)

    -- Whatever the client answers, the cleanup of obsolete VPAs lists VPAs with the managed label in
    -- the workload's namespace, writes none, and deletes only VPAs that the workload controls and
    -- whose name is not the one to keep.
    pub delete_obsolete_managed_vpas-Emits :
        Emits
          (IsCleanup (IsObsolete keep_name))
          (delete_obsolete_managed_vpas b owner kind keep_name)
    unfolding delete_obsolete_managed_vpas
    delete_obsolete_managed_vpas-Emits =
        Emits-bind _ _ (list_managed_vpas-Emits _) delete_obsolete_loop-Emits

  -- What may be deleted on opting out or with its workload: a VPA with an owner reference that names
  -- the workload.
  abbrev pub NamesOwner : (kind : String) → Object → Type 0
  NamesOwner kind vpa = any (refers_to kind owner.name) vpa.owner_references ≡ true

  module _ (kind : String) (f : String → String → Action W Unit)
      (callback-Emits : (ns p : String) → Emits (IsCleanup (NamesOwner kind)) (f ns p)) where
    managed_deleted-Emits :
        (vpa : Object) (r : Result Unit)
        → Emits (IsCleanup (NamesOwner kind)) (managed_deleted b owner kind (some f) vpa r)
    unfolding managed_deleted
    managed_deleted-Emits vpa (ok _) = search (emits_rules, callback-Emits)
    managed_deleted-Emits vpa (err e) = search emits_rules

    delete_managed_ref-Emits :
        (vpa : Object) (ref : OwnerReference)
        → (refers_to kind owner.name ref ≡ true → NamesOwner kind vpa)
        → Emits (IsCleanup (NamesOwner kind)) (delete_managed_ref b owner kind (some f) vpa ref)
    unfolding delete_managed_ref
    delete_managed_ref-Emits vpa ref may =
        Emits-if (not (ref.kind == kind) || not (ref.name == owner.name)) _ _ (λ _. Emits-pure tt)
          λ names.
            Emits-bind _ _
              (Emits-attempt _ (Emits-delete b.kube_client vpa (λ r. may (ap not names))))
              (managed_deleted-Emits vpa)

    delete_managed_refs-Emits :
        (vpa : Object) (refs : List OwnerReference)
        → (any (refers_to kind owner.name) refs ≡ true → NamesOwner kind vpa)
        → Emits (IsCleanup (NamesOwner kind)) (delete_managed_refs b owner kind (some f) vpa refs)
    unfolding delete_managed_refs
    delete_managed_refs-Emits vpa [] may = Emits-pure tt
    delete_managed_refs-Emits vpa (ref ∷ refs) may =
        Emits-bind _ _ (delete_managed_ref-Emits vpa ref (λ here. may (ground arith)))
          (λ _. delete_managed_refs-Emits vpa refs (λ there. may (ground arith)))

    delete_managed_loop-Emits :
        (vpas : List Object)
        → Emits (IsCleanup (NamesOwner kind)) (delete_managed_loop b owner kind (some f) vpas)
    unfolding delete_managed_loop
    delete_managed_loop-Emits [] = Emits-pure tt
    delete_managed_loop-Emits (vpa ∷ vpas) =
        Emits-bind _ _ (delete_managed_refs-Emits vpa vpa.owner_references (λ h. h))
          (λ _. delete_managed_loop-Emits vpas)

    delete_managed_vpas-Emits :
        Emits (IsCleanup (NamesOwner kind)) (delete_managed_vpas b owner kind (some f))
    unfolding delete_managed_vpas
    delete_managed_vpas-Emits = Emits-bind _ _ (list_managed_vpas-Emits _) delete_managed_loop-Emits

  count_opt_out-Emits :
      (kind ns p : String) → Emits (IsCleanup (NamesOwner kind)) (count_opt_out b owner kind ns p)
  unfolding count_opt_out
  count_opt_out-Emits kind ns p = search emits_rules

  count_gone-Emits :
      (kind ns p : String) → Emits (IsCleanup (NamesOwner kind)) (count_gone b owner kind ns p)
  unfolding count_gone
  count_gone-Emits kind ns p = search emits_rules

  -- Whatever the client answers, the cleanups on opting out and for a workload that is gone list VPAs
  -- with the managed label in the workload's namespace, write none, and delete only VPAs that have an
  -- owner reference with the workload's kind and name.
  pub delete_managed_vpas-NamesOwner :
      (kind : String)
      → Emits (IsCleanup (NamesOwner kind)) (delete_managed_vpas_for_opt_out b owner kind)
        × Emits (IsCleanup (NamesOwner kind)) (delete_managed_vpas_for_gone_workload b owner kind)
  unfolding delete_managed_vpas_for_opt_out delete_managed_vpas_for_gone_workload
  delete_managed_vpas-NamesOwner kind = (
    delete_managed_vpas-Emits kind _ (count_opt_out-Emits kind),
    delete_managed_vpas-Emits kind _ (count_gone-Emits kind),
  )
