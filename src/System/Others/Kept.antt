-- ===== src/System/Others/Kept.antt =====
-- The VPA of a workload, while the reconcilers of internal/controller work for others.
use autovpa.Common.{Option, some, [], ◌∷◌, ◌≡◌, ◌∙◌}
use autovpa.Kube.{Object, OwnerReference, GroupVersionKind, NamespacedName}
use autovpa.Kube.Laws.{KeepsContent, MakesReference}
use autovpa.Controller.Base.Desired.{BaseReconciler}
use autovpa.Controller.Vpa.{supported}
use autovpa.System.{key_of, IsApiServer, vpa_reconciler_of}
use autovpa.System.Others.{OtherStep, OtherReach, workload, vpa, elsewhere, here, next}
use autovpa.System.Others.Requests.{reconcile_request-Kept}
use autovpa.System.Others.Safeguard.{reconcile-Kept}

module _ {W : Type 0} (b : BaseReconciler W) (stored : W → NamespacedName → Option Object)
    (o owner : Object) (gvk : GroupVersionKind)
    (server : IsApiServer b.kube_client b.platform stored) (content : KeepsContent b.platform)
    (ref : OwnerReference) (makes : MakesReference b.platform owner gvk ref)
    (only : o.owner_references ≡ ref ∷ []) (inside : o.namespace ≡ owner.namespace)
    (handled : supported gvk.kind ≡ some gvk) where
  OtherStep-Kept :
      {w w' : W}
      → OtherStep b stored o owner gvk w w'
      → stored w (key_of o) ≡ some o
      → stored w' (key_of o) ≡ some o
  unfolding vpa_reconciler_of
  OtherStep-Kept (workload g req other apart) h =
      reconcile_request-Kept b stored o owner gvk server content ref makes only inside g req other _
        apart h
  OtherStep-Kept (vpa req there) h =
      reconcile-Kept b stored o owner gvk server ref makes only inside handled req _ there h
  OtherStep-Kept (elsewhere w' same) h = same ∙ h

  -- Workloads do not disturb each other: a VPA whose only owner reference is the one that
  -- SetControllerReference makes to its workload is never changed or deleted by any sequence of
  -- requests for other workloads, of reconciliations of the VPA controller for any VPA during which
  -- the client does not answer that the workload is missing, and of steps of others that leave it
  -- alone, whatever comes of them. A workload that Get answers for such a request must not control the
  -- VPA and not ask for one of its name. The VPA must be in the namespace of its workload, which must
  -- be of a kind that the VPA controller handles. The API server must meet its laws, and
  -- SetControllerReference must keep what is not an owner reference and make one reference.
  pub OtherReach-Kept :
      {w w' : W}
      → OtherReach b stored o owner gvk w w'
      → stored w (key_of o) ≡ some o
      → stored w' (key_of o) ≡ some o
  OtherReach-Kept here h = h
  OtherReach-Kept (next r s) h = OtherStep-Kept s (OtherReach-Kept r h)
