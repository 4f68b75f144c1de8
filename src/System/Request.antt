-- ===== src/System/Request.antt =====
-- What a request to one of the three workload controllers, internal/controller/deployment_reconciler.go and its
-- siblings, makes of what is stored: the whole effect, for each answer to the question for the workload.
use autovpa.Common.{
  String, Bool, true, false, Option, none, some, List, ◌≡◌, ◌≢◌, refl, ◌∙◌, index, index?, inl, inr,
  Bool-cases, ap,
}
use autovpa.Kube.{
  Object, OwnerReference, GroupVersionKind, NamespacedName, Result, ok, err, is_not_found,
}
use autovpa.Kube.Laws.{KeepsContent}
use autovpa.Config.{Profile}
use autovpa.Effect.{emit, get, ◌>>=◌}
use autovpa.Effect.Keeps.{Keeps, Anything, Keeps-then, Keeps-emit}
use autovpa.Effect.Ends.{Ends}
use autovpa.Metrics.{
  inc_vpa_skipped, inc_vpa_deleted_opt_out, inc_vpa_deleted_workload_gone, dec_vpa_managed,
}
use autovpa.Predicates.{has_non_empty_annotation}
use autovpa.Controller.Base.Desired.{BaseReconciler}
use autovpa.Controller.Base.Delete.{
  count_opt_out, count_gone, delete_managed_vpas_for_opt_out, delete_managed_vpas_for_gone_workload,
}
use autovpa.Controller.Base.{opt_out, reconcile_workload}
use autovpa.Controller.Base.OptIn.{reconcile_workload_lem, missing_profile_harmless}
use autovpa.Controller.Workload.{gone_workload, reconcile_fetched, reconcile_request}
use autovpa.System.{IsApiServer}
use autovpa.System.Desired.{IsOwnerProperty}
use autovpa.System.Elsewhere.{cleaned}
use autovpa.System.Disowned.{disowned, delete_managed_vpas-disowned}
use autovpa.System.Reconciled.{Reconciles, reconcile_workload-IsReconciled}

module _ {W : Type 0} (b : BaseReconciler W) (stored : W → NamespacedName → Option Object)
    (gvk : GroupVersionKind) (P : Object → List OwnerReference → Type 0) where
  -- What is stored under every key is what `f` leaves of what was stored there.
  abbrev pub Becomes : (Option Object → Option Object) → W → W → Type 0
  Becomes f w w' = (k : NamespacedName) → stored w' k ≡ f (stored w k)

  -- What the annotation of a workload and the profile of that name ask for: the cleanup, nothing,
  -- or the VPA of the profile.
  abbrev pub IsServedAs : Bool → Option Profile → Object → W → W → Type 0
  IsServedAs false chosen obj w w' = Becomes (disowned b obj gvk.kind) w w'
  IsServedAs true none obj w w' = Becomes (λ s. s) w w'
  IsServedAs true (some profile) obj w w' =
      Reconciles b stored obj gvk (P obj) (index obj.annotations b.meta.profile_key) profile w w'

  abbrev pub IsServed : NamespacedName → Result Object → W → W → Type 0
  IsServed req (ok obj) w w' =
      IsServedAs (has_non_empty_annotation (some obj) b.meta.profile_key)
        (index? b.profiles.entries (index obj.annotations b.meta.profile_key)) obj w w'
  IsServed req (err e) w w' =
      (is_not_found e ≡ true) × Becomes (disowned b (gone_workload b gvk req) gvk.kind) w w'

  module _ (server : IsApiServer b.kube_client b.platform stored)
      (owners : (obj : Object) → IsOwnerProperty b stored obj gvk (P obj))
      (distinct : b.meta.managed_label ≢ b.meta.profile_key)
      (content : KeepsContent b.platform) where
    count_opt_out-Keeps :
        (obj : Object) (I : W → Type 0) (ns profile : String)
        → Keeps I Anything (count_opt_out b obj gvk.kind ns profile)
    unfolding count_opt_out inc_vpa_deleted_opt_out dec_vpa_managed
    count_opt_out-Keeps obj I ns profile = Keeps-then _ _ (Keeps-emit _) (λ _. Keeps-emit _)

    count_gone-Keeps :
        (obj : Object) (I : W → Type 0) (ns profile : String)
        → Keeps I Anything (count_gone b obj gvk.kind ns profile)
    unfolding count_gone inc_vpa_deleted_workload_gone dec_vpa_managed
    count_gone-Keeps obj I ns profile = Keeps-then _ _ (Keeps-emit _) (λ _. Keeps-emit _)

    opt_out-Becomes :
        (obj : Object) (w : W) → Ends (Becomes (disowned b obj gvk.kind) w) (opt_out b obj gvk) w
    unfolding opt_out inc_vpa_skipped emit ◌>>=◌ delete_managed_vpas_for_opt_out
    opt_out-Becomes obj w a e k =
        delete_managed_vpas-disowned b stored server.fresh server.complete server.consistent obj
          gvk.kind (count_opt_out b obj gvk.kind) (count_opt_out-Keeps obj) k w a e

    gone-Becomes :
        (obj : Object) (w : W)
        → Ends
            (Becomes (disowned b obj gvk.kind) w)
            (delete_managed_vpas_for_gone_workload b obj gvk.kind)
            w
    unfolding delete_managed_vpas_for_gone_workload
    gone-Becomes obj w a e k =
        delete_managed_vpas-disowned b stored server.fresh server.complete server.consistent obj
          gvk.kind (count_gone b obj gvk.kind) (count_gone-Keeps obj) k w a e

    served :
        (opted : Bool) (chosen : Option Profile) (obj : Object) (w : W)
        → has_non_empty_annotation (some obj) b.meta.profile_key ≡ opted
        → index? b.profiles.entries (index obj.annotations b.meta.profile_key) ≡ chosen
        → Ends (IsServedAs opted chosen obj w) (reconcile_workload b obj gvk) w
    served false chosen obj w out h =
        rw (reconcile_workload_lem b obj gvk, out) (opt_out-Becomes obj w)
    served true none obj w opted missing =
        rw (missing_profile_harmless b obj gvk w opted missing) (λ a e k. refl)
    served true (some profile) obj w opted chosen = λ a.
        reconcile_workload-IsReconciled b stored obj gvk (P obj) server (owners obj) distinct
          content profile w opted chosen

    module _ (req : NamespacedName) where
      shift :
          (opted : Bool) (chosen : Option Profile) (obj : Object) (w u u' : W)
          → ((k : NamespacedName) → stored u k ≡ stored w k)
          → IsServedAs opted chosen obj u u'
          → IsServedAs opted chosen obj w u'
      shift false chosen obj w u u' same h = λ k. h k ∙ ap (disowned b obj gvk.kind) (same k)
      shift true none obj w u u' same h = λ k. h k ∙ same k
      shift true (some profile) obj w u u' same (desired, built, r) = (
        desired,
        built,
        record {
          present = r.present;
          elsewhere = λ k other. r.elsewhere k other ∙ ap (cleaned b obj desired.name) (same k);
        },
      )

      fetched :
          (r : Result Object) (w u : W)
          → ((k : NamespacedName) → stored u k ≡ stored w k)
          → Ends (IsServed req r w) (reconcile_fetched b gvk req r) u
      unfolding reconcile_fetched
      fetched (ok obj) w u same = λ a e. shift _ _ obj w u _ same (served _ _ obj u refl refl a e)
      fetched (err e) w u same = elim (Bool-cases (is_not_found e)) [
        | inl missing ↦ rw missing (λ a e. (
          refl,
          λ k.
              gone-Becomes (gone_workload b gvk req) u a e k
              ∙ ap (disowned b (gone_workload b gvk req) gvk.kind) (same k),
        ))
        | inr other ↦ rw other (λ a failed. cc failed)
      ]

      -- If a request to a workload controller succeeds, then the VPAs that are stored have become what
      -- the answer to the question for the workload asks for. If the workload is missing, or has no
      -- profile annotation, every VPA of its namespace with the managed label and an owner reference
      -- with its kind and name is gone, and no other VPA has changed. If its annotation names a
      -- profile that does not exist, no VPA has changed. If the profile exists, the VPA of the
      -- profile is stored under the rendered name, with owner references that satisfy `P`; every
      -- other VPA of its namespace with the managed label that it controls is gone; and no other VPA
      -- has changed. Any other error of the question is an error of the request. The API server must
      -- meet its laws, the label keys must differ, SetControllerReference must keep what is not an
      -- owner reference, and `P` must hold of the owner references that it makes and be kept by an
      -- apply and by an equality.
      pub reconcile_request-IsServed :
          (w : W)
          → (reconcile_request b gvk req w).result ≡ ok tt
          → IsServed req (b.kube_client.get gvk req w).0 w (reconcile_request b gvk req w).world
      unfolding reconcile_request ◌>>=◌ get
      reconcile_request-IsServed w =
          fetched (b.kube_client.get gvk req w).0 w (b.kube_client.get gvk req w).1
            (λ k. server.fresh.get_keeps gvk req k w) tt
