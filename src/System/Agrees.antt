-- ===== src/System/Agrees.antt =====
-- The VPA reconciler of internal/controller/vpa_reconciler.go and the workload reconcilers of
-- internal/controller/base_reconciler.go on one cluster: what the one makes, the other leaves.
use mathlib.Core.Path.{subst}
use autovpa.Common.{
  String, Bool, lookup, Map, ◌==◌, if◌then◌else◌, true, false, Option, none, some, ◌≡◌, ◌≢◌, refl,
  sym, ap, ◌∙◌, index, index?, any,
}
use autovpa.Kube.{Object, OwnerReference, GroupVersionKind, NamespacedName, Result, ok, err}
use autovpa.Kube.Laws.{KeepsContent, ComparesOwners, MakesReference}
use autovpa.Config.{Profile}
use autovpa.Effect.Runs.{ok-injective}
use autovpa.Effect.Counts.{is_delete}
use autovpa.Predicates.{has_non_empty_annotation, has_true_label}
use autovpa.Controller.{vpa_gvk}
use autovpa.Controller.Base.Desired.{BaseReconciler, DesiredVpaState, build_desired_vpa}
use autovpa.Controller.Base.{reconcile_workload}
use autovpa.Controller.Vpa.{supported, resolve_owner_gvk, reconcile, Owner}
use autovpa.Controller.Vpa.Decision.{owner_gone, invalid_owner, should_delete, is_delete-reconcile}
use autovpa.System.{key_of, rendered_key, IsApiServer, KeepsOwners, vpa_reconciler_of}
use autovpa.System.Calls.{some-injective}
use autovpa.System.Owned.{IsOnly, IsOnly-IsOwnerProperty, resolve_owner_gvk-ref}
use autovpa.System.Reconciled.{reconcile_workload-IsReconciled}

module _ {W : Type 0} (b : BaseReconciler W) (stored : W → NamespacedName → Option Object)
    (obj : Object) (gvk : GroupVersionKind) (server : IsApiServer b.kube_client b.platform stored)
    (distinct : b.meta.managed_label ≢ b.meta.profile_key) (content : KeepsContent b.platform)
    (compares : ComparesOwners b.platform) (ref : OwnerReference)
    (makes : MakesReference b.platform obj gvk ref) (handled : supported gvk.kind ≡ some gvk) where
  -- The workload, when the VPA reconciler asks for it after the VPA of the key.
  abbrev pub IsKnown : NamespacedName → W → Type 0
  IsKnown key w =
      owner_gone (vpa_reconciler_of b)
        (b.kube_client.get gvk (key_of obj) (b.kube_client.get vpa_gvk key w).1).0
      ≡ false

  has_true_label-managed :
      (y : Object)
      → index? y.labels b.meta.managed_label ≡ some "true"
      → has_true_label (some y) b.meta.managed_label ≡ true
  unfolding has_true_label index index? lookup
  has_true_label-managed y h = by_labels y.labels h
    where
      by_labels :
          (m : Map String)
          → index? m b.meta.managed_label ≡ some "true"
          → (elim m [ none ↦ false | some l ↦ index (some l) b.meta.managed_label == "true" ])
            ≡ true
      by_labels none e = cc e
      by_labels (some l) e = rw e refl

  abbrev gone_in : W → GroupVersionKind → (namespace name : String) → Bool
  gone_in w kind namespace name =
      owner_gone (vpa_reconciler_of b)
        (b.kube_client.get kind (record { namespace = namespace; name = name }) w).0

  invalid_owner-own :
      (y : Object) (w : W)
      → y.namespace ≡ obj.namespace
      → IsOnly ref y.owner_references
      → owner_gone (vpa_reconciler_of b) (b.kube_client.get gvk (key_of obj) w).0 ≡ false
      → invalid_owner (vpa_reconciler_of b) y w ≡ false
  unfolding vpa_reconciler_of
  invalid_owner-own y w inside only known =
      by_owner (resolve_owner_gvk y.owner_references)
        (ap resolve_owner_gvk only ∙ resolve_owner_gvk-ref b.platform obj gvk ref makes handled)
    where
      by_owner :
          (o : Option Owner)
          → o ≡ some (record { gvk = gvk; name = obj.name })
          → (elim o [
            | none ↦ true
            | some owner ↦
                owner_gone
                  (vpa_reconciler_of b)
                  (b.kube_client.get owner.gvk
                    (record { namespace = y.namespace; name = owner.name })
                    w).0
          ])
            ≡ false
      by_owner none e = cc e
      by_owner (some owner) e =
          let it : owner ≡ record { gvk = gvk; name = obj.name } = cc e in
          ap (λ (o : Owner). gone_in w o.gvk y.namespace o.name) it
          ∙ (ap (λ (ns : String). gone_in w gvk ns obj.name) inside ∙ known)

  should_delete-own :
      (desired : DesiredVpaState) (y : Object) (w : W)
      → stored w (rendered_key obj desired) ≡ some y
      → index? y.labels b.meta.managed_label ≡ some "true"
      → IsOnly ref y.owner_references
      → IsKnown (rendered_key obj desired) w
      → should_delete (vpa_reconciler_of b) (rendered_key obj desired) w ≡ false
  unfolding vpa_reconciler_of
  should_delete-own desired y w at managed only known =
      by_answer (b.kube_client.get vpa_gvk (rendered_key obj desired) w).0 refl
    where
      by_answer :
          (r : Result Object)
          → (b.kube_client.get vpa_gvk (rendered_key obj desired) w).0 ≡ r
          → (elim r [
            | err e ↦ false
            | ok vpa ↦
                if has_true_label (some vpa) b.meta.managed_label
                then invalid_owner
                    (vpa_reconciler_of b)
                    vpa
                    (b.kube_client.get vpa_gvk (rendered_key obj desired) w).1
                else false
          ])
            ≡ false
      by_answer (err e) got = refl
      by_answer (ok x) got =
          let same : y ≡ x = some-injective (sym at ∙ server.fresh.get_fresh _ w x got) in
          let here = server.consistent.keyed w (rendered_key obj desired) y at in
          let inside = ap (λ (k : NamespacedName). k.namespace) here in
          subst
            (λ (vpa : Object).
              (if has_true_label (some vpa) b.meta.managed_label
                then invalid_owner (vpa_reconciler_of b) vpa
                    (b.kube_client.get vpa_gvk (rendered_key obj desired) w).1
                else false)
              ≡ false)
            same (rw (has_true_label-managed y managed) (invalid_owner-own y _ inside only known))

  module _ (owners : KeepsOwners b.kube_client stored) where
    -- The VPA reconciler does not undo what a workload reconciler has done: after a reconciliation of
    -- a workload that is opted in, with a profile that exists, has succeeded, and for as long as the
    -- rendered VPA stays as it is stored then, a reconciliation of that VPA by the VPA reconciler
    -- deletes nothing, if the client does not answer that the workload is missing. The workload must be
    -- of a kind that the VPA reconciler handles, the API server must meet its laws and store the
    -- owner references that the operator applies, the label keys must differ,
    -- SetControllerReference must keep what is not an owner reference and make one reference, and
    -- semantic equality of owner references must be equality.
    pub reconcile-KeepsReconciled :
        (profile : Profile) (w w' : W) (desired : DesiredVpaState)
        → has_non_empty_annotation (some obj) b.meta.profile_key ≡ true
        → index? b.profiles.entries (index obj.annotations b.meta.profile_key) ≡ some profile
        → (reconcile_workload b obj gvk w).result ≡ ok tt
        → build_desired_vpa b obj gvk (index obj.annotations b.meta.profile_key) profile
          ≡ ok desired
        → stored w' (rendered_key obj desired)
          ≡ stored (reconcile_workload b obj gvk w).world (rendered_key obj desired)
        → IsKnown (rendered_key obj desired) w'
        → any is_delete (reconcile (vpa_reconciler_of b) (rendered_key obj desired) w').calls
          ≡ false
    reconcile-KeepsReconciled profile w w' desired opted chosen done built kept known =
        let (d, made, r) =
          reconcile_workload-IsReconciled b stored obj gvk (IsOnly ref) server
            (IsOnly-IsOwnerProperty b stored obj gvk ref compares makes owners) distinct content
            profile w opted chosen done in
        let same : d ≡ desired = ok-injective (sym made ∙ built) in
        let (y, at, _, managed, _, only) = r.present in
        is_delete-reconcile (vpa_reconciler_of b) (rendered_key obj desired) w'
        ∙ should_delete-own desired y w'
            (kept
              ∙ (ap
                    (λ (x : DesiredVpaState).
                      stored (reconcile_workload b obj gvk w).world (rendered_key obj x))
                    (sym same)
                  ∙ at))
            managed only known
