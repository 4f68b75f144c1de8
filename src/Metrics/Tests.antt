-- ===== src/Metrics/Tests.antt =====
-- Examples for internal/metrics/metrics.go: a registerer whose state is the list of the names that it has.
use autovpa.Common.{
  String, false, elem, Option, none, some, List, [], ◌∷◌, ◌≡◌, refl, if◌then◌else◌,
}
use autovpa.Metrics.Setup.{Collector, Registerer, new_registry}
use autovpa.Metrics.Registered.{
  name_of, then_register, IsRegisterer, IsRegistered, new_registry-IsRegistered,
}

abbrev register : Collector → List String → Option (List String)
register c s = if elem (name_of c) s then none else some (name_of c ∷ s)

abbrev must_register : List Collector → List String → Option (List String)
must_register [] s = some s
must_register (c ∷ cs) s = then_register (register c s) (must_register cs)

abbrev names_registerer : Registerer (List String)
names_registerer = record { register = register; must_register = must_register }

names_registerer-IsRegisterer : IsRegisterer names_registerer (λ s. s)
names_registerer-IsRegisterer = record {
  refuses = λ c s taken. rw taken refl;
  accepts = λ c s free. rw free (name_of c ∷ s, refl, refl);
  must_none = λ s. refl;
  must_some = λ c cs s. refl;
}

new_registry-IsRegistered_example :
    IsRegistered
      (λ s. s)
      names_registerer
      names_registerer
      ("go_goroutines" ∷ [])
      false
      (new_registry names_registerer none ("go_goroutines" ∷ []))
new_registry-IsRegistered_example =
    new_registry-IsRegistered (λ s. s) names_registerer none ("go_goroutines" ∷ [])
      names_registerer-IsRegisterer

-- A second registry at the same registerer panics.
taken_twice : new_registry names_registerer none ("autovpa_managed_vpa" ∷ []) ≡ none
unfolding new_registry
taken_twice =
    new_registry-IsRegistered (λ s. s) names_registerer none ("autovpa_managed_vpa" ∷ [])
      names_registerer-IsRegisterer
