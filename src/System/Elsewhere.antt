-- ===== src/System/Elsewhere.antt =====
-- What a reconciliation of a workload, by internal/controller/base_reconciler.go, makes of every VPA but
-- the rendered one.
use mathlib.Core.Path.{subst}
use autovpa.Common.{
  String, Bool, true, false, not, ◌&&◌, Option, none, some, ◌==◌, eq_iff, arith, ◌≡◌, ◌≢◌, refl,
  sym, ap, ◌∙◌, index, inl, inr, Bool-cases, if◌then◌else◌,
}
use autovpa.Kube.{Object, GroupVersionKind, NamespacedName, PatchOptions}
use autovpa.Kube.Laws.{KeepsContent, AnswersKey}
use autovpa.Effect.{Action, patch, ◌>>=◌}
use autovpa.Effect.Keeps.{Keeps, Anything, Keeps-then}
use autovpa.Effect.Ends.{Ends, Ends-first}
use autovpa.Controller.{vpa_gvk}
use autovpa.Controller.Base.Desired.{BaseReconciler, DesiredVpaState, fetch_existing_vpa}
use autovpa.Controller.Base.Delete.{delete_obsolete_managed_vpas}
use autovpa.Controller.Base.{apply_desired}
use autovpa.System.{key_of, rendered_key, IsFresh, IsComplete, IsConsistent}
use autovpa.System.Calls.{Still, delete-Still, patch-Still}
use autovpa.System.Listed.{nowhere, IsListed, list-IsListed}
use autovpa.System.Obsolete.{list_managed_vpas-Leaves, delete_obsolete_managed_vpas-Leaves}
use autovpa.System.Applies.{fetch_and_apply-Leaves}
use autovpa.System.Gone.{Gone, obsolete-Ends, delete-Gone, list-Gone}

module _ {W : Type 0} (b : BaseReconciler W) (obj : Object) (keep : String) where
  -- A managed VPA of the workload's namespace that the workload controls, under another name.
  abbrev pub is_obsolete : Object → Bool
  is_obsolete x =
      (x.namespace == obj.namespace)
      && ((index x.labels b.meta.managed_label == "true")
          && (not (x.name == keep) && b.platform.is_controlled_by x obj))

  -- What the cleanup leaves of what is stored under a key.
  abbrev pub cleaned : Option Object → Option Object
  cleaned none = none
  cleaned (some x) = if is_obsolete x then none else some x

  is_obsolete-cases :
      (x : Object)
      → is_obsolete x ≡ true
      → (x.namespace ≡ obj.namespace)
        × (index x.labels b.meta.managed_label ≡ "true")
        × (x.name ≢ keep)
        × (b.platform.is_controlled_by x obj ≡ true)
  is_obsolete-cases x h = (
    ground (arith, h, eq_iff x.namespace obj.namespace),
    ground (arith, h, eq_iff (index x.labels b.meta.managed_label) "true"),
    λ same. let e : false ≡ true = ground (arith, h, (eq_iff x.name keep).1 same) in cc e,
    ground (arith, h),
  )

  pub is_obsolete-intro :
      (x : Object)
      → x.namespace ≡ obj.namespace
      → index x.labels b.meta.managed_label ≡ "true"
      → x.name ≢ keep
      → b.platform.is_controlled_by x obj ≡ true
      → is_obsolete x ≡ true
  is_obsolete-intro x ns managed renamed mine = ground (
    arith,
    (eq_iff x.namespace obj.namespace).1 ns,
    (eq_iff (index x.labels b.meta.managed_label) "true").1 managed,
    eq_iff x.name keep,
    renamed,
    mine,
  )

-- A reconciliation once the desired VPA is built.
abbrev pub cleaned_and_applied :
    {W : Type 0} → BaseReconciler W → Object → GroupVersionKind → DesiredVpaState → Action W Unit
cleaned_and_applied b obj gvk desired =
    delete_obsolete_managed_vpas b obj gvk.kind desired.name >>= λ _.
    fetch_existing_vpa b (rendered_key obj desired) >>= λ found.
    apply_desired b obj gvk desired found

module _ {W : Type 0} (b : BaseReconciler W) (stored : W → NamespacedName → Option Object)
    (fresh : IsFresh b.kube_client stored) (complete : IsComplete b.kube_client stored)
    (consistent : IsConsistent b.kube_client stored) (content : KeepsContent b.platform)
    (answers : AnswersKey b.kube_client) (obj : Object) (gvk : GroupVersionKind)
    (desired : DesiredVpaState) where
  abbrev cleanup_and_apply : Action W Unit
  cleanup_and_apply = cleaned_and_applied b obj gvk desired

  module _ (k : NamespacedName) (other : rendered_key obj desired ≢ k) where
    abbrev Absent : W → Type 0
    Absent = Gone b stored fresh complete (nowhere k)

    patch-Absent :
        (x : Object) (options : PatchOptions)
        → key_of x ≢ k
        → Keeps Absent Anything (patch b.kube_client x options)
    unfolding patch
    patch-Absent x options apart = record {
      state = λ w g. fresh.patch_only x options k w apart ∙ g;
      answer = λ w g a e. tt;
    }

    cleanup_and_apply-Absent : Keeps Absent Anything cleanup_and_apply
    cleanup_and_apply-Absent =
        Keeps-then _ _
          (delete_obsolete_managed_vpas-Leaves b Absent obj gvk.kind desired.name Anything
            (λ x _ _. delete-Gone b stored fresh complete (nowhere k) x)
            (list_managed_vpas-Leaves b Absent Anything obj.namespace
              (list-Gone b stored fresh complete (nowhere k) obj.namespace)))
          (λ _.
            fetch_and_apply-Leaves b k Absent patch-Absent
              (λ key w g. fresh.get_keeps vpa_gvk key k w ∙ g) content answers obj gvk desired
              other)

    module _ (x : Object) where
      obsolete_goes :
          (w : W)
          → stored w k ≡ some x
          → is_obsolete b obj desired.name x ≡ true
          → Ends Absent cleanup_and_apply w
      obsolete_goes w h o =
          let (ns, managed, renamed, mine) = is_obsolete-cases b obj desired.name x o in
          let same = consistent.keyed w k x h in
          Ends-first Absent _ _ w
            (λ a e.
              ap (stored _) (sym same)
              ∙ obsolete-Ends b stored fresh complete x obj gvk.kind desired.name renamed mine w
                  (ap (stored w) same ∙ h, ns, managed) a e)
            (λ _.
              fetch_and_apply-Leaves b k Absent patch-Absent
                (λ key w g. fresh.get_keeps vpa_gvk key k w ∙ g) content answers obj gvk desired
                other)

      abbrev Stays : W → Type 0
      Stays = Still b.kube_client stored fresh k x

      wanted-Stays :
          is_obsolete b obj desired.name x ≡ false → Keeps Stays Anything cleanup_and_apply
      wanted-Stays wanted =
          Keeps-then _ _
            (delete_obsolete_managed_vpas-Leaves b Stays obj gvk.kind desired.name
              (IsListed b obj k x)
              (λ y renamed mine found. delete-Still b.kube_client stored fresh k x y (λ same. cc (
                wanted,
                subst (λ (z : Object). is_obsolete b obj desired.name z ≡ true) (found.0 same)
                    (is_obsolete-intro b obj desired.name y found.1 found.2 renamed mine),
              )))
              (list_managed_vpas-Leaves b Stays (IsListed b obj k x) obj.namespace
                (list-IsListed b stored fresh consistent obj k x)))
            (λ _.
              fetch_and_apply-Leaves b k Stays (patch-Still b.kube_client stored fresh k x)
                (λ key w g. fresh.get_keeps vpa_gvk key k w ∙ g) content answers obj gvk desired
                other)

    by_content :
        (before : Option Object) (w : W)
        → stored w k ≡ before
        → Ends (λ w'. stored w' k ≡ cleaned b obj desired.name before) cleanup_and_apply w
    by_content none w h a e = cleanup_and_apply-Absent.state w h
    by_content (some x) w h a e = elim (Bool-cases (is_obsolete b obj desired.name x)) [
      | inl obsolete ↦ rw obsolete (obsolete_goes x w h obsolete a e)
      | inr wanted ↦ rw wanted ((wanted-Stays x wanted).state w h)
    ]

    pub cleaned_and_applied-cleaned :
        (w : W)
        → Ends (λ w'. stored w' k ≡ cleaned b obj desired.name (stored w k)) cleanup_and_apply w
    cleaned_and_applied-cleaned w = by_content (stored w k) w refl
