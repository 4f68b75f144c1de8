-- ===== src/App/Steps.antt =====
-- What the start-up does, step by step: a step gives a result or an error, and the calls that it
-- made, in order. Calls made before an error stay made.
use autovpa.Common.{String, Bool, true, false, List, [], ◌∷◌, ◌++◌, ◌≡◌, refl}
use autovpa.Kube.{Error, Result, ok, err}
use autovpa.Logging.{Loggers}
use autovpa.Utils.Keys.{CacheOptions}
use autovpa.Controller.Setup.{Registration}

-- metricsserver.Options; `authenticated` is whether a FilterProvider is set
pub record MetricsServerOptions : Type 0 where
  pub bind_address : String
  pub secure_serving : Bool
  -- each option sets the protocols that a connection may choose from
  pub tls_opts : List (List String)
  pub authenticated : Bool

-- ctrl.Options, and the options of its webhook server
pub record ManagerOptions : Type 0 where
  pub metrics : MetricsServerOptions
  pub webhook_tls_opts : List (List String)
  pub health_probe_bind_address : String
  pub leader_election : Bool
  pub leader_election_id : String
  pub cache : CacheOptions

pub data StartCall : Type 0 where
  print_out print_err : Error → StartCall
  install_loggers : Loggers → StartCall
  create_manager : ManagerOptions → StartCall
  add_controller : Registration → StartCall
  add_healthz_check add_readyz_check : (name : String) → StartCall
  start_manager : StartCall

pub record Startup (A : Type 0) : Type 0 where
  pub result : Result A
  pub calls : List StartCall

abbrev pub lift : {A : Type 0} → Result A → Startup A
lift r = record { result = r; calls = [] }

-- A call and what it answers.
abbrev pub call : {A : Type 0} → StartCall → Result A → Startup A
call c r = record { result = r; calls = c ∷ [] }

module _ {A B : Type 0} where
  abbrev pub continue : List StartCall → Result A → (A → Startup B) → Startup B
  continue calls (ok a) f = record { result = (f a).result; calls = calls ++ (f a).calls }
  continue calls (err e) f = record { result = err e; calls = calls }

  infixl 10 ◌>>=◌ ◌>>◌
  unfoldable pub ◌>>=◌ : Startup A → (A → Startup B) → Startup B
  m >>= f = continue m.calls m.result f

  abbrev pub ◌>>◌ : Startup A → Startup B → Startup B
  m >> n = m >>= λ _. n

-- Whether mgr.Start was called.
abbrev pub starts : List StartCall → Bool
starts [] = false
starts (start_manager ∷ l) = true
starts (_ ∷ l) = starts l

starts-append_quiet : (l m : List StartCall) → starts l ≡ false → starts (l ++ m) ≡ starts m
starts-append_quiet [] m h = refl
starts-append_quiet (start_manager ∷ l) m h = cc h
starts-append_quiet (print_out e ∷ l) m h = starts-append_quiet l m h
starts-append_quiet (print_err e ∷ l) m h = starts-append_quiet l m h
starts-append_quiet (install_loggers z ∷ l) m h = starts-append_quiet l m h
starts-append_quiet (create_manager o ∷ l) m h = starts-append_quiet l m h
starts-append_quiet (add_controller r ∷ l) m h = starts-append_quiet l m h
starts-append_quiet (add_healthz_check n ∷ l) m h = starts-append_quiet l m h
starts-append_quiet (add_readyz_check n ∷ l) m h = starts-append_quiet l m h

module _ {A B : Type 0} where
  -- A start after a step that does not start comes from the rest, and the step succeeded.
  pub starts-bind :
      (m : Startup A) (f : A → Startup B)
      → starts m.calls ≡ false
      → starts (m >>= f).calls ≡ true
      → (a : A) × (m.result ≡ ok a) × (starts (f a).calls ≡ true)
  unfolding ◌>>=◌
  starts-bind m f quiet h = go m.result h
    where
      go :
          (r : Result A)
          → starts (continue m.calls r f).calls ≡ true
          → (a : A) × (r ≡ ok a) × (starts (f a).calls ≡ true)
      go (ok a) h = (a, refl, rw (← starts-append_quiet m.calls (f a).calls quiet) h)
      go (err e) h = cc (quiet, h)

  -- A chain that succeeds has succeeded at its first step.
  pub result-bind :
      (m : Startup A) (f : A → Startup B) {b : B}
      → (m >>= f).result ≡ ok b
      → (a : A) × (m.result ≡ ok a) × ((f a).result ≡ ok b)
  unfolding ◌>>=◌
  result-bind m f {b} h = go m.result h
    where
      go :
          (r : Result A)
          → (continue m.calls r f).result ≡ ok b
          → (a : A) × (r ≡ ok a) × ((f a).result ≡ ok b)
      go (ok a) h = (a, refl, h)
      go (err e) h = cc h
