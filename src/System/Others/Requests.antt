-- ===== src/System/Others/Requests.antt =====
-- A request to a workload controller of internal/controller leaves the VPA of another workload.
use autovpa.Common.{true, false, Option, [], ◌∷◌, ◌≡◌, refl, sym, ap, ◌∙◌, any}
use autovpa.Kube.{
  Object, OwnerReference, GroupVersionKind, NamespacedName, Result, ok, err, is_not_found,
}
use autovpa.Kube.Laws.{KeepsContent, MakesReference}
use autovpa.Effect.{Action, get, delete, ◌>>=◌}
use autovpa.Effect.Keeps.{Keeps, OfResult, Anything, Keeps-throw, Keeps-if}
use autovpa.Controller.{vpa_gvk}
use autovpa.Controller.Base.Safety.{refers_to}
use autovpa.Controller.Base.Desired.{BaseReconciler}
use autovpa.Controller.Workload.{gone_workload, reconcile_fetched, reconcile_request}
use autovpa.System.{key_of, IsApiServer}
use autovpa.System.Calls.{Still, delete-Still, patch-Still}
use autovpa.System.Listed.{IsListed, list-IsListed}
use autovpa.System.Deletions.{for_gone_workload-Leaves}
use autovpa.System.WorkloadCalls.{reconcile_workload-Leaves}
use autovpa.System.Owned.{refers_to-ref}
use autovpa.System.Others.{IsOther, IsApart, IsElsewhere}

module _ {W : Type 0} (b : BaseReconciler W) (stored : W → NamespacedName → Option Object)
    (o owner : Object) (gvk : GroupVersionKind)
    (server : IsApiServer b.kube_client b.platform stored) (content : KeepsContent b.platform)
    (ref : OwnerReference) (makes : MakesReference b.platform owner gvk ref)
    (only : o.owner_references ≡ ref ∷ []) (inside : o.namespace ≡ owner.namespace) where
  abbrev Kept : W → Type 0
  Kept = Still b.kube_client stored server.fresh (key_of o) o

  abbrev LeavesIt : {A : Type 0} → Action W A → Type 0
  LeavesIt m = Keeps Kept Anything m

  module _ (g : GroupVersionKind) (req : NamespacedName)
      (other : IsOther b stored o owner gvk g req) where
    named-Leaves :
        (obj x : Object)
        → obj.name ≡ req.name
        → obj.namespace ≡ req.namespace
        → any (refers_to g.kind obj.name) x.owner_references ≡ true
        → IsListed b obj (key_of o) o x
        → LeavesIt (delete b.kube_client x)
    named-Leaves obj x name namespace names listed =
        delete-Still b.kube_client stored server.fresh (key_of o) o x (λ same.
          let e : x ≡ o = listed.0 same in
          let refs : x.owner_references ≡ ref ∷ [] =
            ap (λ (y : Object). y.owner_references) e ∙ only in
          let r =
            refers_to-ref b.platform owner gvk ref makes g.kind obj.name
              (ap (any (refers_to g.kind obj.name)) (sym refs) ∙ names) in
          let kind : g.kind ≡ gvk.kind = r.0 in
          let its_name : req.name ≡ owner.name = sym name ∙ r.1 in
          let its_namespace : req.namespace ≡ owner.namespace =
            sym namespace ∙ (sym listed.1 ∙ (ap (λ (y : Object). y.namespace) e ∙ inside)) in
          other (cc (kind, its_name, its_namespace)))

    -- What Get answers for the request.
    abbrev IsAnswer : Object → Type 0
    IsAnswer obj =
        (obj.name ≡ req.name)
        × (obj.namespace ≡ req.namespace)
        × (b.platform.is_controlled_by o obj ≡ false)
        × IsElsewhere b stored o owner gvk g obj

    controlled-Leaves :
        (obj x : Object)
        → b.platform.is_controlled_by o obj ≡ false
        → b.platform.is_controlled_by x obj ≡ true
        → IsListed b obj (key_of o) o x
        → LeavesIt (delete b.kube_client x)
    controlled-Leaves obj x apart mine listed =
        delete-Still b.kube_client stored server.fresh (key_of o) o x (λ same.
          let e : x ≡ o = listed.0 same in
          let f : b.platform.is_controlled_by x obj ≡ false =
            ap (λ (y : Object). b.platform.is_controlled_by y obj) e ∙ apart in
          cc (f, mine))

    fetched-Leaves :
        (r : Result Object) → OfResult IsAnswer r → LeavesIt (reconcile_fetched b g req r)
    unfolding reconcile_fetched
    fetched-Leaves (ok obj) (name, namespace, apart, away) =
        reconcile_workload-Leaves b (key_of o)
          (Still b.kube_client stored server.fresh (key_of o) o)
          (patch-Still b.kube_client stored server.fresh (key_of o) o)
          (λ key w h. server.fresh.get_keeps vpa_gvk key (key_of o) w ∙ h) content server.answers
          obj g (IsListed b obj (key_of o) o)
          (list-IsListed b stored server.fresh server.consistent obj (key_of o) o)
          (λ x mine listed. controlled-Leaves obj x apart mine listed)
          (λ x names listed. named-Leaves obj x name namespace names listed) away
    fetched-Leaves (err e) q =
        Keeps-if (is_not_found e) _ _
          (λ _.
            for_gone_workload-Leaves b (Still b.kube_client stored server.fresh (key_of o) o)
              (gone_workload b g req) g.kind (IsListed b (gone_workload b g req) (key_of o) o)
              (λ x names listed. named-Leaves (gone_workload b g req) x refl refl names listed)
              (list-IsListed b stored server.fresh server.consistent (gone_workload b g req)
                (key_of o) o))
          (λ _. Keeps-throw _)

    get-IsAnswer :
        (w : W) (r : Result Object)
        → IsApart b stored o owner gvk g req w
        → (b.kube_client.get g req w).0 ≡ r
        → OfResult IsAnswer r
    get-IsAnswer w (ok obj) apart e =
        let c = server.answers.same_key g req w obj e in let a = apart obj e in (c.0, c.1, a.0, a.1)
    get-IsAnswer w (err _) apart e = tt

    pub reconcile_request-Kept :
        (w : W)
        → IsApart b stored o owner gvk g req w
        → Kept w
        → Kept (reconcile_request b g req w).world
    unfolding reconcile_request ◌>>=◌ get
    reconcile_request-Kept w apart h =
        (fetched-Leaves (b.kube_client.get g req w).0 (get-IsAnswer w _ apart refl)).state
          (b.kube_client.get g req w).1 (server.fresh.get_keeps g req (key_of o) w ∙ h)
