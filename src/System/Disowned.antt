-- ===== src/System/Disowned.antt =====
-- What the cleanups on opting out and for a workload that is gone, by
-- internal/controller/base_reconciler.go, make of what is stored.
use mathlib.Core.Path.{subst}
use autovpa.Common.{
  String, Bool, true, false, ◌&&◌, Option, none, some, ◌==◌, eq_iff, arith, ◌≡◌, refl, sym, ap, ◌∙◌,
  index, any, inl, inr, Bool-cases, if◌then◌else◌,
}
use autovpa.Kube.{Object, NamespacedName}
use autovpa.Effect.{Action}
use autovpa.Effect.Keeps.{Keeps, Anything}
use autovpa.Effect.Ends.{Ends}
use autovpa.Controller.Base.Desired.{BaseReconciler}
use autovpa.Controller.Base.Delete.{delete_managed_vpas}
use autovpa.Controller.Base.Safety.{refers_to}
use autovpa.System.{IsFresh, IsComplete, IsConsistent}
use autovpa.System.Calls.{Still, delete-Still}
use autovpa.System.Listed.{nowhere, IsListed, list-IsListed}
use autovpa.System.Deletions.{delete_managed_vpas-Leaves}
use autovpa.System.Gone.{Gone, delete-Gone, list-Gone, delete_managed_vpas-Ends}

module _ {W : Type 0} (b : BaseReconciler W) (obj : Object) (kind : String) where
  -- A managed VPA of the workload's namespace with an owner reference that names the workload.
  abbrev pub is_owned : Object → Bool
  is_owned x =
      (x.namespace == obj.namespace)
      && ((index x.labels b.meta.managed_label == "true")
          && any (refers_to kind obj.name) x.owner_references)

  -- What such a cleanup leaves of what is stored under a key.
  abbrev pub disowned : Option Object → Option Object
  disowned none = none
  disowned (some x) = if is_owned x then none else some x

  is_owned-cases :
      (x : Object)
      → is_owned x ≡ true
      → (x.namespace ≡ obj.namespace)
        × (index x.labels b.meta.managed_label ≡ "true")
        × (any (refers_to kind obj.name) x.owner_references ≡ true)
  is_owned-cases x h = (
    ground (arith, h, eq_iff x.namespace obj.namespace),
    ground (arith, h, eq_iff (index x.labels b.meta.managed_label) "true"),
    ground (arith, h),
  )

  is_owned-intro :
      (x : Object)
      → x.namespace ≡ obj.namespace
      → index x.labels b.meta.managed_label ≡ "true"
      → any (refers_to kind obj.name) x.owner_references ≡ true
      → is_owned x ≡ true
  is_owned-intro x ns managed names = ground (
    arith,
    (eq_iff x.namespace obj.namespace).1 ns,
    (eq_iff (index x.labels b.meta.managed_label) "true").1 managed,
    names,
  )

module _ {W : Type 0} (b : BaseReconciler W) (stored : W → NamespacedName → Option Object)
    (fresh : IsFresh b.kube_client stored) (complete : IsComplete b.kube_client stored)
    (consistent : IsConsistent b.kube_client stored) (obj : Object) (kind : String)
    (on_delete : String → String → Action W Unit)
    (counts : (I : W → Type 0) (ns profile : String) → Keeps I Anything (on_delete ns profile))
    (k : NamespacedName) where
  abbrev cleanup : Action W Unit
  cleanup = delete_managed_vpas b obj kind (some on_delete)

  abbrev Absent : W → Type 0
  Absent = Gone b stored fresh complete (nowhere k)

  cleanup-Absent : Keeps Absent Anything cleanup
  cleanup-Absent =
      delete_managed_vpas-Leaves b Absent obj kind Anything
        (λ x _. delete-Gone b stored fresh complete (nowhere k) x)
        (list-Gone b stored fresh complete (nowhere k) obj.namespace) on_delete (counts Absent)

  module _ (x : Object) where
    owned_goes :
        (w : W) → stored w k ≡ some x → is_owned b obj kind x ≡ true → Ends Absent cleanup w
    owned_goes w h o a e =
        let (ns, managed, names) = is_owned-cases b obj kind x o in
        let same = consistent.keyed w k x h in
        ap (stored _) (sym same)
        ∙ delete_managed_vpas-Ends b stored fresh complete x obj kind on_delete (counts _) names w
            (ap (stored w) same ∙ h, ns, managed) a e

    abbrev Stays : W → Type 0
    Stays = Still b.kube_client stored fresh k x

    wanted-Stays : is_owned b obj kind x ≡ false → Keeps Stays Anything cleanup
    wanted-Stays wanted =
        delete_managed_vpas-Leaves b Stays obj kind (IsListed b obj k x)
          (λ y names found. delete-Still b.kube_client stored fresh k x y (λ same.
            let e : false ≡ true =
              sym wanted
              ∙ subst (λ (z : Object). is_owned b obj kind z ≡ true) (found.0 same)
                  (is_owned-intro b obj kind y found.1 found.2 names) in
            cc e))
          (list-IsListed b stored fresh consistent obj k x) on_delete (counts Stays)

  by_content :
      (before : Option Object) (w : W)
      → stored w k ≡ before
      → Ends (λ w'. stored w' k ≡ disowned b obj kind before) cleanup w
  by_content none w h a e = cleanup-Absent.state w h
  by_content (some x) w h a e = elim (Bool-cases (is_owned b obj kind x)) [
    | inl owned ↦ rw owned (owned_goes x w h owned a e)
    | inr wanted ↦ rw wanted ((wanted-Stays x wanted).state w h)
  ]

  pub delete_managed_vpas-disowned :
      (w : W) → Ends (λ w'. stored w' k ≡ disowned b obj kind (stored w k)) cleanup w
  delete_managed_vpas-disowned w = by_content (stored w k) w refl
