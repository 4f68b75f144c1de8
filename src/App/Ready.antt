-- ===== src/App/Ready.antt =====
-- When Run of internal/app/run.go starts the manager, and what then holds of the settings that the
-- controllers were given.
use autovpa.Common.{true, false, some, List, [], ◌∷◌, ◌≡◌, ◌↔◌, inl, inr, Bool-cases, refl, arith}
use autovpa.Kube.{ok, Result-cases}
use autovpa.Flag.{Options}
use autovpa.Logging.{init_logging}
use autovpa.Config.{Config, validate}
use autovpa.Config.Load.{load_file}
use autovpa.Utils.Keys.{validate_unique_keys, ensure_vpa_resource}
use autovpa.Controller.{MetaConfig, ProfileConfig}
use autovpa.Controller.Setup.{setup_deployment, setup_stateful_set, setup_daemon_set, setup_vpa}
use autovpa.App.{
  Environment, manager_options, profiles_of, meta_of, meta_keys, check_crd, add, add_controllers,
  add_checks, prepare, connect, run_with,
}
use autovpa.App.Steps.{
  StartCall, install_loggers, create_manager, add_controller, add_healthz_check, add_readyz_check,
  start_manager, Startup, call, ◌>>=◌, starts, starts-bind, result-bind,
}

module _ {RestConfig : Type 0} (env : Environment RestConfig) where
  -- Every check that precedes the start passes, with the options, the configuration as it was loaded
  -- and as validation leaves it, and the REST configuration.
  pub record IsReady (flags : Options) (loaded cfg : Config) (rest_cfg : RestConfig) : Type 0 where
    pub loads : load_file env.files flags.config_path ≡ ok loaded
    pub validates : validate env.engine flags.default_name_template loaded ≡ ok cfg
    pub unique : validate_unique_keys (some (meta_keys flags)) ≡ ok tt
    pub connects : env.get_config ≡ ok rest_cfg
    pub finds_crd : flags.crd_check ≡ true → ensure_vpa_resource env.discovery rest_cfg ≡ ok tt
    pub creates : env.new_manager rest_cfg (manager_options flags) ≡ ok tt
    pub adds_deployment :
        env.complete (setup_deployment (profiles_of flags cfg) (meta_of flags)) ≡ ok tt
    pub adds_stateful_set :
        env.complete (setup_stateful_set (profiles_of flags cfg) (meta_of flags)) ≡ ok tt
    pub adds_daemon_set :
        env.complete (setup_daemon_set (profiles_of flags cfg) (meta_of flags)) ≡ ok tt
    pub adds_vpa : env.complete (setup_vpa (meta_of flags)) ≡ ok tt
    pub adds_healthz : env.add_check "healthz" ≡ ok tt
    pub adds_readyz : env.add_check "readyz" ≡ ok tt

  -- What a complete start has called, in order.
  abbrev pub start_calls : Options → Config → List StartCall
  start_calls flags cfg =
      install_loggers (init_logging flags)
      ∷ create_manager (manager_options flags)
      ∷ add_controller (setup_deployment (profiles_of flags cfg) (meta_of flags))
      ∷ add_controller (setup_stateful_set (profiles_of flags cfg) (meta_of flags))
      ∷ add_controller (setup_daemon_set (profiles_of flags cfg) (meta_of flags))
      ∷ add_controller (setup_vpa (meta_of flags))
      ∷ add_healthz_check "healthz"
      ∷ add_readyz_check "readyz"
      ∷ start_manager
      ∷ []

  pub prepare_iff :
      (flags : Options) (cfg : Config)
      → ((prepare env flags).result ≡ ok cfg) ↔ (
          (loaded : Config) × (load_file env.files flags.config_path ≡ ok loaded)
          × (validate env.engine flags.default_name_template loaded ≡ ok cfg)
          × (validate_unique_keys (some (meta_keys flags)) ≡ ok tt))
  unfolding prepare ◌>>=◌
  prepare_iff flags cfg = (
    λ h. elim (Result-cases (load_file env.files flags.config_path)) [
      | inl (loaded, l) ↦ (loaded, l, ground (arith, l, h), ground (arith, l, h))
      | inr (e, l) ↦ absurd (ground (arith, l, h))
    ],
    λ (loaded, l, v, u). ground (arith, l, v, u),
  )

  check_crd_iff :
      (flags : Options) (rest_cfg : RestConfig)
      → (check_crd env flags rest_cfg ≡ ok tt)
        ↔ (flags.crd_check ≡ true → ensure_vpa_resource env.discovery rest_cfg ≡ ok tt)
  unfolding check_crd
  check_crd_iff flags rest_cfg = elim (Bool-cases flags.crd_check) [
    | inl on ↦ rw on (λ h _. h, λ h. h refl)
    | inr off ↦ rw off (λ h o. cc o, λ h. refl)
  ]

  connect_iff :
      (flags : Options)
      → ((connect env flags).result ≡ ok tt) ↔ (
          (rest_cfg : RestConfig) × (env.get_config ≡ ok rest_cfg)
          × (check_crd env flags rest_cfg ≡ ok tt)
          × (env.new_manager rest_cfg (manager_options flags) ≡ ok tt))
  unfolding connect ◌>>=◌
  connect_iff flags = (
    λ h. elim (Result-cases env.get_config) [
      | inl (rest_cfg, g) ↦ (rest_cfg, g, ground (arith, g, h), ground (arith, g, h))
      | inr (e, g) ↦ absurd (ground (arith, g, h))
    ],
    λ (rest_cfg, g, c, n). ground (arith, g, c, n),
  )

  add_controllers_iff :
      (p : ProfileConfig) (m : MetaConfig)
      → ((add_controllers env p m).result ≡ ok tt) ↔ (
          (env.complete (setup_deployment p m) ≡ ok tt)
          × (env.complete (setup_stateful_set p m) ≡ ok tt)
          × (env.complete (setup_daemon_set p m) ≡ ok tt)
          × (env.complete (setup_vpa m) ≡ ok tt))
  unfolding add_controllers ◌>>=◌ add
  add_controllers_iff p m = (λ h. ground arith, λ h. ground arith)

  add_checks_iff :
      ((add_checks env).result ≡ ok tt)
      ↔ ((env.add_check "healthz" ≡ ok tt) × (env.add_check "readyz" ≡ ok tt))
  unfolding add_checks ◌>>=◌
  add_checks_iff = (λ h. ground arith, λ h. ground arith)

  prepare_quiet : (flags : Options) → starts (prepare env flags).calls ≡ false
  unfolding prepare ◌>>=◌
  prepare_quiet flags = ground arith

  connect_quiet : (flags : Options) → starts (connect env flags).calls ≡ false
  unfolding connect ◌>>=◌
  connect_quiet flags = ground arith

  add_controllers_quiet :
      (p : ProfileConfig) (m : MetaConfig) → starts (add_controllers env p m).calls ≡ false
  unfolding add_controllers ◌>>=◌ add
  add_controllers_quiet p m = ground arith

  add_checks_quiet : starts (add_checks env).calls ≡ false
  unfolding add_checks ◌>>=◌
  add_checks_quiet = ground arith

  -- Some configuration passes every check.
  abbrev pub Starts : Options → Type 0
  Starts flags =
      (loaded : Config) × (cfg : Config) × (rest_cfg : RestConfig) × IsReady flags loaded cfg
        rest_cfg

  pub run_with_ready :
      (flags : Options) (loaded cfg : Config) (rest_cfg : RestConfig)
      → IsReady flags loaded cfg rest_cfg
      → run_with env flags ≡ record { result = env.start; calls = start_calls flags cfg }
  unfolding run_with prepare connect add_controllers add add_checks ◌>>=◌
  run_with_ready flags loaded cfg rest_cfg r =
      let crd = (check_crd_iff flags rest_cfg).1 r.finds_crd in ground (arith, crd)

  -- The results of the steps are those of the checks.
  steps-Starts :
      (flags : Options) (cfg : Config)
      → (prepare env flags).result ≡ ok cfg
      → (connect env flags).result ≡ ok tt
      → (add_controllers env (profiles_of flags cfg) (meta_of flags)).result ≡ ok tt
      → (add_checks env).result ≡ ok tt
      → Starts flags
  steps-Starts flags cfg p c a k =
      let (loaded, l, v, u) = (prepare_iff flags cfg).0 p in
      let (rest_cfg, g, crd, n) = (connect_iff flags).0 c in
      let (d, ss, ds, vp) = (add_controllers_iff (profiles_of flags cfg) (meta_of flags)).0 a in
      let (hz, rz) = add_checks_iff.0 k in
      (
        loaded,
        cfg,
        rest_cfg,
        record {
          loads = l;
          validates = v;
          unique = u;
          connects = g;
          finds_crd = (check_crd_iff flags rest_cfg).0 crd;
          creates = n;
          adds_deployment = d;
          adds_stateful_set = ss;
          adds_daemon_set = ds;
          adds_vpa = vp;
          adds_healthz = hz;
          adds_readyz = rz;
        },
      )

  abbrev loggers : Options → Startup (Unit {0})
  loggers flags = call (install_loggers (init_logging flags)) (ok tt)

  pub starts-run_with : (flags : Options) → starts (run_with env flags).calls ≡ true → Starts flags
  unfolding run_with
  starts-run_with flags h =
      let (_, _, prepares) = starts-bind (loggers flags) _ refl h in
      let (cfg, p, connects) = starts-bind (prepare env flags) _ (prepare_quiet flags) prepares in
      let (_, c, adds) = starts-bind (connect env flags) _ (connect_quiet flags) connects in
      let (_, a, checks) =
        starts-bind (add_controllers env (profiles_of flags cfg) (meta_of flags)) _
          (add_controllers_quiet (profiles_of flags cfg) (meta_of flags)) adds in
      let (_, k, _) = starts-bind (add_checks env) _ add_checks_quiet checks in
      steps-Starts flags cfg p c a k

  pub result-run_with :
      (flags : Options) → (run_with env flags).result ≡ ok tt → Starts flags × (env.start ≡ ok tt)
  unfolding run_with
  result-run_with flags h =
      let (_, _, prepares) = result-bind (loggers flags) _ h in
      let (cfg, p, connects) = result-bind (prepare env flags) _ prepares in
      let (_, c, adds) = result-bind (connect env flags) _ connects in
      let (_, a, checks) =
        result-bind (add_controllers env (profiles_of flags cfg) (meta_of flags)) _ adds in
      let (_, k, started) = result-bind (add_checks env) _ checks in
      (steps-Starts flags cfg p c a k, started)
