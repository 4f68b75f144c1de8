-- ===== src/System/Gone.antt =====
-- The cleanups of internal/controller/base_reconciler.go are complete: a cleanup that succeeds leaves
-- none of the VPAs that it is for.
use mathlib.Core.Path.{subst}
use autovpa.Common.{
  String, Bool, true, false, not, ◌||◌, Option, none, some, List, [], ◌∷◌, In, inl, inr, ◌≡◌, ◌≢◌,
  refl, sym, ap, ◌∙◌, All, any, index, arith, ◌==◌, eq_iff, Bool-cases, if◌then◌else◌,
}
use autovpa.Kube.{
  Object, OwnerReference, NamespacedName, Error, Result, ok, err, Result-cases, is_not_found,
}
use autovpa.Effect.{Action, pure, throw, attempt, ◌>>=◌, delete, list}
use autovpa.Effect.Ends.{Ends, Ends-first, Ends-last}
use autovpa.Effect.Keeps.{Keeps, Anything}
use autovpa.Controller.{vpa_list_gvk}
use autovpa.Controller.Base.Desired.{BaseReconciler, list_managed_vpas, as_listed}
use autovpa.Controller.Base.Delete.{
  delete_obsolete_one, delete_obsolete_loop, delete_obsolete_managed_vpas, obsolete_deleted,
  managed_deleted, delete_managed_ref, delete_managed_refs, delete_managed_loop,
  delete_managed_vpas,
}
use autovpa.Controller.Base.Safety.{NamesOwner, refers_to}
use autovpa.System.{key_of, IsFresh, IsComplete}
use autovpa.System.Obsolete.{obsolete_deleted-Leaves, delete_obsolete_loop-Leaves}
use autovpa.System.Deletions.{
  managed_deleted-Leaves, delete_managed_refs-Leaves, delete_managed_loop-Leaves,
}

-- What passes such a test has met it.
pub passes-eq-true :
    {W : Type 0} (c : Bool) (x : Error) (w : W) (a : Unit {0})
    → ((if c then pure tt else throw x) w).result ≡ ok a
    → c ≡ true
passes-eq-true true x w a h = refl
passes-eq-true false x w a h = cc h

module _ {W : Type 0} (b : BaseReconciler W) (stored : W → NamespacedName → Option Object)
    (fresh : IsFresh b.kube_client stored) (complete : IsComplete b.kube_client stored)
    (o : Object) where
  -- Nothing is stored under the key of `o`.
  abbrev pub Gone : W → Type 0
  Gone w = stored w (key_of o) ≡ none

  pub delete-Gone : (x : Object) → Unit {0} → Keeps Gone Anything (delete b.kube_client x)
  unfolding delete
  delete-Gone x h = record {
    state = λ w g. complete.delete_creates_nothing x (key_of o) w g;
    answer = λ w g a e. tt;
  }

  pub All-Anything : (l : List Object) → All (λ x. Unit {0}) l
  All-Anything [] = tt
  All-Anything (x ∷ l) = (tt, All-Anything l)

  pub list-Gone :
      (ns : String)
      → Keeps Gone
          (All (λ x. Unit {0}))
          (list b.kube_client vpa_list_gvk ns b.meta.managed_label "true")
  unfolding list
  list-Gone ns = record {
    state = λ w g. fresh.list_keeps ns b.meta.managed_label "true" (key_of o) w ∙ g;
    answer = λ w g l e. All-Anything l;
  }

  -- A delete of `o` that the rest lets succeed has removed it.
  pub delete-Ends :
      (f : Result (Unit {0}) → Action W Unit) (w : W)
      → ((r : Result (Unit {0})) → Keeps Gone Anything (f r))
      → ((e : Error) (w' : W) (a : Unit {0}) → (f (err e) w').result ≡ ok a → is_not_found e ≡ true)
      → Ends Gone (attempt (delete b.kube_client o) >>= f) w
  unfolding ◌>>=◌ delete
  delete-Ends f w keeps stops a e = elim (Result-cases (b.kube_client.delete o w).0) [
    | inl (_, done) ↦ (keeps (b.kube_client.delete o w).0).state _ (complete.delete_done o w done)
    | inr (x, failed) ↦
        let w' = (b.kube_client.delete o w).1 in
        let missing =
          stops x w' a (ap (λ (r : Result (Unit {0})). (f r w').result) (sym failed) ∙ e) in
        (keeps (b.kube_client.delete o w).0).state w' (complete.delete_missing o w x failed missing)
  ]

  listed :
      (ns : String) (w : W) (l : List Object)
      → (list_managed_vpas b ns w).result ≡ ok l
      → (b.kube_client.list vpa_list_gvk ns b.meta.managed_label "true" w).0 ≡ ok l
  unfolding list_managed_vpas as_listed ◌>>=◌ list
  listed ns w l h =
      elim (Result-cases (b.kube_client.list vpa_list_gvk ns b.meta.managed_label "true" w).0) [
        | inl (m, answered) ↦ ground (arith, h, answered)
        | inr (e, failed) ↦ absurd (ground (arith, h, failed))
      ]

  module _ (obj : Object) (kind : String) where
    -- A VPA of the workload's namespace with the managed label.
    abbrev pub IsManagedHere : W → Type 0
    IsManagedHere w =
        (stored w (key_of o) ≡ some o)
        × (o.namespace ≡ obj.namespace)
        × (index o.labels b.meta.managed_label ≡ "true")

    is_listed :
        (w : W) (l : List Object)
        → IsManagedHere w
        → (list_managed_vpas b obj.namespace w).result ≡ ok l
        → In o l
    is_listed w l here h =
        complete.list_complete obj.namespace b.meta.managed_label "true" w l o
          (listed obj.namespace w l h) here.0 here.1 here.2

    module _ (keep : String) (renamed : o.name ≢ keep)
        (controlled : b.platform.is_controlled_by o obj ≡ true) where
      delete_obsolete_one-Ends : (w : W) → Ends Gone (delete_obsolete_one b obj kind keep o) w
      unfolding delete_obsolete_one obsolete_deleted
      delete_obsolete_one-Ends w =
          let other : (o.name == keep) ≡ false = ground (arith, eq_iff o.name keep, renamed) in
          rw (other, controlled)
            (delete-Ends (obsolete_deleted b obj kind o) w
              (obsolete_deleted-Leaves b Gone obj kind o) stops)
        where
          stops :
              (e : Error) (w' : W) (a : Unit {0})
              → (obsolete_deleted b obj kind o (err e) w').result ≡ ok a
              → is_not_found e ≡ true
          stops e w' a h = passes-eq-true (is_not_found e) _ w' a h

      delete_obsolete_loop-Ends :
          (l : List Object) (w : W) → In o l → Ends Gone (delete_obsolete_loop b obj kind keep l) w
      unfolding delete_obsolete_loop
      delete_obsolete_loop-Ends [] w h = absurd h
      delete_obsolete_loop-Ends (x ∷ l) w (inl same) =
          Ends-first Gone _ _ w
            (subst (λ (y : Object). Ends Gone (delete_obsolete_one b obj kind keep y) w) (sym same)
              (delete_obsolete_one-Ends w))
            (λ _.
              delete_obsolete_loop-Leaves b Gone obj kind keep (λ _. Unit {0})
                (λ y _ _. delete-Gone y) l (All-Anything l))
      delete_obsolete_loop-Ends (x ∷ l) w (inr later) =
          Ends-last Gone _ _ w (λ _ _. delete_obsolete_loop-Ends l _ later)

      pub obsolete-Ends :
          (w : W) → IsManagedHere w → Ends Gone (delete_obsolete_managed_vpas b obj kind keep) w
      unfolding delete_obsolete_managed_vpas
      obsolete-Ends w here =
          Ends-last Gone _ _ w (λ l h. delete_obsolete_loop-Ends l _ (is_listed w l here h))

    module _ (on_delete : String → String → Action W Unit)
        (counts : (ns profile : String) → Keeps Gone Anything (on_delete ns profile)) where
      delete_managed_ref-Ends :
          (ref : OwnerReference) (w : W)
          → refers_to kind obj.name ref ≡ true
          → Ends Gone (delete_managed_ref b obj kind (some on_delete) o ref) w
      unfolding delete_managed_ref managed_deleted
      delete_managed_ref-Ends ref w refers =
          let guard : (not (ref.kind == kind) || not (ref.name == obj.name)) ≡ false =
            ground (arith, refers) in
          rw guard (
            delete-Ends (managed_deleted b obj kind (some on_delete) o) w
              (managed_deleted-Leaves b Gone obj kind on_delete counts o)
              (λ e w' a h. passes-eq-true (is_not_found e) _ w' a h))

      module _ (names : NamesOwner b obj kind o) where
        delete_managed_refs-Ends :
            (refs : List OwnerReference) (w : W)
            → any (refers_to kind obj.name) refs ≡ true
            → Ends Gone (delete_managed_refs b obj kind (some on_delete) o refs) w
        unfolding delete_managed_refs
        delete_managed_refs-Ends [] w h = cc h
        delete_managed_refs-Ends (ref ∷ refs) w h =
            elim (Bool-cases (refers_to kind obj.name ref)) [
              | inl here ↦ Ends-first Gone _ _ w (delete_managed_ref-Ends ref w here) (λ _.
                  delete_managed_refs-Leaves b Gone obj kind (λ _. Unit {0}) (λ y _. delete-Gone y)
                    on_delete counts o refs tt (λ _. names))
              | inr later ↦
                  Ends-last Gone _ _ w
                    (λ _ _. delete_managed_refs-Ends refs _ (ground (arith, h, later)))
            ]

        delete_managed_loop-Ends :
            (l : List Object) (w : W)
            → In o l
            → Ends Gone (delete_managed_loop b obj kind (some on_delete) l) w
        unfolding delete_managed_loop
        delete_managed_loop-Ends [] w h = absurd h
        delete_managed_loop-Ends (x ∷ l) w (inl same) =
            Ends-first Gone _ _ w
              (subst
                (λ (y : Object).
                  Ends Gone (delete_managed_refs b obj kind (some on_delete) y y.owner_references)
                    w)
                (sym same) (delete_managed_refs-Ends o.owner_references w names))
              (λ _.
                delete_managed_loop-Leaves b Gone obj kind (λ _. Unit {0}) (λ y _. delete-Gone y)
                  on_delete counts l (All-Anything l))
        delete_managed_loop-Ends (x ∷ l) w (inr later) =
            Ends-last Gone _ _ w (λ _ _. delete_managed_loop-Ends l _ later)

        pub delete_managed_vpas-Ends :
            (w : W)
            → IsManagedHere w
            → Ends Gone (delete_managed_vpas b obj kind (some on_delete)) w
        unfolding delete_managed_vpas
        delete_managed_vpas-Ends w here =
            Ends-last Gone _ _ w (λ l h. delete_managed_loop-Ends l _ (is_listed w l here h))
