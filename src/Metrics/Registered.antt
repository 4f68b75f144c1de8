-- ===== src/Metrics/Registered.antt =====
-- When NewRegistry of internal/metrics/metrics.go panics, and what it has registered when it does not.
use mathlib.Core.Path.{subst}
use autovpa.Common.{
  String, Bool, true, false, any, elem, Option, none, some, List, [], ◌∷◌, map, ◌≡◌, refl, ap,
  if◌then◌else◌, Bool-cases, inl, inr,
}
use autovpa.Metrics.Registry.{counter_options, gauge_options}
use autovpa.Metrics.Setup.{
  Collector, collector_options, Registerer, Registry, default_if_nil, instruments, registry_with,
  answer, new_registry,
}

abbrev pub name_of : Collector → String
name_of c = (collector_options c).name

abbrev pub then_register : {S : Type 0} → Option S → (S → Option S) → Option S
then_register none f = none
then_register (some s) f = f s

-- The documentation of Prometheus, for a registerer that has the metrics `names s`: Register refuses a
-- metric whose name is taken and adds any other, and MustRegister panics at the first that is refused.
pub record IsRegisterer {S : Type 0} (reg : Registerer S) (names : S → List String) : Type 0 where
  pub refuses :
      (c : Collector) (s : S) → elem (name_of c) (names s) ≡ true → reg.register c s ≡ none
  pub accepts :
      (c : Collector) (s : S)
      → elem (name_of c) (names s) ≡ false
      → (s' : S) × (reg.register c s ≡ some s') × (names s' ≡ name_of c ∷ names s)
  pub must_none : (s : S) → reg.must_register [] s ≡ some s
  pub must_some :
      (c : Collector) (cs : List Collector) (s : S)
      → reg.must_register (c ∷ cs) s ≡ then_register (reg.register c s) (reg.must_register cs)

-- The ten metrics that the README names, in the order of their registration.
abbrev metric_names : List String
metric_names =
    "autovpa_vpa_created_total" ∷ "autovpa_vpa_updated_total" ∷ "autovpa_vpa_skipped_total"
    ∷ "autovpa_vpa_deleted_obsolete_total" ∷ "autovpa_vpa_deleted_opt_out_total"
    ∷ "autovpa_vpa_deleted_workload_gone_total" ∷ "autovpa_vpa_deleted_owner_gone_total"
    ∷ "autovpa_vpa_deleted_orphaned_total" ∷ "autovpa_managed_vpa"
    ∷ "autovpa_reconcile_errors_total" ∷ []

abbrev added : List String → List String → List String
added [] taken = taken
added (n ∷ ns) taken = added ns (n ∷ taken)

-- A name is taken when its turn comes.
abbrev clash : List String → List String → Bool
clash [] taken = false
clash (n ∷ ns) taken = if elem n taken then true else clash ns (n ∷ taken)

module _ {S : Type 0} (names : S → List String) where
  -- What is left of `taken` and the new names: nothing if there is a clash, else all of them.
  abbrev IsAdded : List String → List String → Bool → Option S → Type 0
  IsAdded ns taken true o = o ≡ none
  IsAdded ns taken false o = (s : S) × (o ≡ some s) × (names s ≡ added ns taken)

  IsAdded-step :
      (n : String) (ns taken : List String) (clashes : Bool) (o : Option S)
      → IsAdded ns (n ∷ taken) clashes o
      → IsAdded (n ∷ ns) taken clashes o
  IsAdded-step n ns taken true o h = h
  IsAdded-step n ns taken false o h = h

  must_register-IsAdded :
      (reg : Registerer S)
      → IsRegisterer reg names
      → (cs : List Collector) (s : S)
      → IsAdded
          (map name_of cs)
          (names s)
          (clash (map name_of cs) (names s))
          (reg.must_register cs s)
  must_register-IsAdded reg laws [] s = (s, laws.must_none s, refl)
  must_register-IsAdded reg laws (c ∷ cs) s = elim (Bool-cases (elem (name_of c) (names s))) [
    | inl taken ↦ rw (taken, laws.must_some c cs s, laws.refuses c s taken) refl
    | inr free ↦
        let (s', e, n) = laws.accepts c s free in
        let step =
          IsAdded-step (name_of c) (map name_of cs) (names s) _ (reg.must_register cs s') in
        rw (free, laws.must_some c cs s, e)
          (step (
            subst
              (λ t. IsAdded (map name_of cs) t (clash (map name_of cs) t) (reg.must_register cs s'))
              n (must_register-IsAdded reg laws cs s')))
  ]

  module _ (default_registerer : Registerer S) where
    -- Nothing if NewRegistry panics, else a registry whose ten instruments have been added.
    abbrev pub IsRegistered : Registerer S → List String → Bool → Option (Registry S × S) → Type 0
    IsRegistered reg taken true o = o ≡ none
    IsRegistered reg taken false o =
        (r : Registry S) × (s : S) × (o ≡ some (r, s))
        × (r.reg ≡ reg)
        × (map name_of (instruments r) ≡ metric_names)
        × (names s ≡ added metric_names taken)

    IsRegistered-answer :
        (reg : Registerer S) (r : Registry S) (taken : List String) (clashes : Bool) (o : Option S)
        → r.reg ≡ reg
        → map name_of (instruments r) ≡ metric_names
        → IsAdded metric_names taken clashes o
        → IsRegistered reg taken clashes (answer r o)
    IsRegistered-answer reg r taken true o same named h = rw h refl
    IsRegistered-answer reg r taken false o same named (s, e, n) =
        (r, s, ap (answer r) e, same, named, n)

    -- NewRegistry panics exactly when one of the names of its ten metrics is already taken at the
    -- registerer that it is given, or at the default one if it is given none. Otherwise it returns a
    -- registry with that registerer, whose ten instruments have these names and have been
    -- registered. Register must refuse names that are taken, and only those.
    pub new_registry-IsRegistered :
        (given : Option (Registerer S)) (s : S)
        → IsRegisterer (default_if_nil default_registerer given) names
        → IsRegistered
            (default_if_nil default_registerer given)
            (names s)
            (any (λ n. elem n (names s)) metric_names)
            (new_registry default_registerer given s)
    unfolding new_registry counter_options gauge_options
    new_registry-IsRegistered given s laws =
        let reg = default_if_nil default_registerer given in
        IsRegistered-answer reg (registry_with reg) (names s) _ _ refl refl
          (must_register-IsAdded reg laws (instruments (registry_with reg)) s)
