-- ===== src/System/Listed.antt =====
-- What a list of managed VPAs, by internal/controller/base_reconciler.go, says of what is stored under one
-- key.
use autovpa.Common.{Option, some, List, [], ◌∷◌, ◌≡◌, sym, ap, ◌∙◌, index, All}
use autovpa.Kube.{Object, NamespacedName}
use autovpa.Effect.{list}
use autovpa.Effect.Keeps.{Keeps}
use autovpa.Controller.{vpa_list_gvk, empty_object}
use autovpa.Controller.Base.Desired.{BaseReconciler}
use autovpa.System.{key_of, IsFresh, IsConsistent}
use autovpa.System.Calls.{Still, some-injective}

-- An object that has the key.
abbrev pub nowhere : NamespacedName → Object
nowhere k = record empty_object { name = k.name; namespace = k.namespace }

-- What a list answers while `x` is stored under the key.
abbrev pub IsListed :
    {W : Type 0} → BaseReconciler W → (obj : Object) → NamespacedName → (x y : Object) → Type 0
IsListed b obj k x y =
    (key_of y ≡ k → y ≡ x)
    × (y.namespace ≡ obj.namespace)
    × (index y.labels b.meta.managed_label ≡ "true")

module _ {W : Type 0} (b : BaseReconciler W) (stored : W → NamespacedName → Option Object)
    (fresh : IsFresh b.kube_client stored) (consistent : IsConsistent b.kube_client stored)
    (obj : Object) (k : NamespacedName) (x : Object) where
  all-IsListed :
      (w : W) (l : List Object)
      → Still b.kube_client stored fresh k x w
      → All (λ y. (stored w (key_of y) ≡ some y) × (index y.labels b.meta.managed_label ≡ "true")) l
      → All (λ (y : Object). y.namespace ≡ obj.namespace) l
      → All (IsListed b obj k x) l
  all-IsListed w [] h fresh' inside = tt
  all-IsListed w (y ∷ l) h fresh' inside = (
    (λ same. some-injective (sym fresh'.0.0 ∙ (ap (stored w) same ∙ h)), inside.0, fresh'.0.1),
    all-IsListed w l h fresh'.1 inside.1,
  )

  pub list-IsListed :
      Keeps
        (Still b.kube_client stored fresh k x)
        (All (IsListed b obj k x))
        (list b.kube_client vpa_list_gvk obj.namespace b.meta.managed_label "true")
  unfolding list
  list-IsListed = record {
    state = λ w h. fresh.list_keeps obj.namespace b.meta.managed_label "true" k w ∙ h;
    answer = λ w h l e.
        all-IsListed w l h (fresh.list_fresh obj.namespace b.meta.managed_label "true" w l e)
          (consistent.list_inside obj.namespace b.meta.managed_label "true" w l e);
  }
