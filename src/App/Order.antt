-- ===== src/App/Order.antt =====
-- The order of the calls of Run, internal/app/run.go, and what they are given.
use autovpa.Common.{
  String, false, none, some, List, [], ◌∷◌, ◌++◌, ◌≡◌, ◌⊎◌, inl, inr, refl, arith, if◌then◌else◌,
}
use autovpa.Kube.{GroupVersionKind, Error, ok, err, Result-cases}
use autovpa.Flag.{Options, parse_args}
use autovpa.Logging.{init_logging}
use autovpa.Config.{Config, validate}
use autovpa.Config.Load.{load_file}
use autovpa.Utils.Keys.{to_cache_options, validate_unique_keys}
use autovpa.Predicates.{
  profile_annotation_lifecycle, managed_vpa_lifecycle, managed_vpa_structural_lifecycle,
}
use autovpa.Controller.{
  MetaConfig, ProfileConfig, vpa_gvk, deployment_gvk, stateful_set_gvk, daemon_set_gvk,
}
use autovpa.Controller.Setup.{
  Registration, setup_deployment, setup_stateful_set, setup_daemon_set, setup_vpa,
}
use autovpa.App.{
  Environment, manager_options, metrics_server_options, tls_opts, profiles_of, meta_of, meta_keys,
  add, add_controllers, add_checks, prepare, connect, run_with, run,
}
use autovpa.App.Steps.{
  StartCall, MetricsServerOptions, ManagerOptions, install_loggers, create_manager, add_controller,
  add_healthz_check, add_readyz_check, start_manager, ◌>>=◌,
}
use autovpa.App.Follows.{Follows, Follows-lift, Follows-call, Follows-bind}
use autovpa.App.Ready.{prepare_iff}

-- What the flags and the validated configuration ask of Run, flag by flag.
module _ (flags : Options) (cfg : Config) where
  -- HTTP/2 is off unless the flag turns it on.
  abbrev protocols : List (List String)
  protocols = if flags.enable_http2 then [] else ("http/1.1" ∷ []) ∷ []

  abbrev metrics_server : MetricsServerOptions
  metrics_server = record {
    bind_address = if flags.enable_metrics then flags.metrics_addr else "0";
    secure_serving = if flags.enable_metrics then flags.secure_metrics else false;
    tls_opts = if flags.enable_metrics then protocols else [];
    authenticated = if flags.enable_metrics then flags.secure_metrics else false;
  }

  abbrev manager : ManagerOptions
  manager = record {
    metrics = metrics_server;
    webhook_tls_opts = protocols;
    health_probe_bind_address = flags.probe_addr;
    leader_election = flags.leader_election;
    leader_election_id = "fc1fdccd.autovpa.containeroo.ch";
    cache = to_cache_options flags.watch_namespaces;
  }

  abbrev keys : MetaConfig
  keys = record { profile_key = flags.profile_annotation; managed_label = flags.managed_label }

  abbrev profiles : ProfileConfig
  profiles = record {
    name_template = flags.default_name_template;
    default = cfg.default_profile;
    entries = cfg.profiles;
  }

  abbrev workload_controller : (recorder : String) → GroupVersionKind → Registration
  workload_controller recorder gvk = record {
    recorder = recorder;
    profiles = some profiles;
    meta = keys;
    watches = gvk;
    watches_if = profile_annotation_lifecycle flags.profile_annotation;
    owns = some vpa_gvk;
    owns_if = some (managed_vpa_lifecycle flags.managed_label flags.profile_annotation);
  }

  abbrev vpa_controller : Registration
  vpa_controller = record {
    recorder = "vpa-controller";
    profiles = none;
    meta = keys;
    watches = vpa_gvk;
    watches_if = managed_vpa_structural_lifecycle flags.managed_label;
    owns = none;
    owns_if = none;
  }

  abbrev controllers : List StartCall
  controllers =
      add_controller (workload_controller "deployment-controller" deployment_gvk)
      ∷ add_controller (workload_controller "statefulset-controller" stateful_set_gvk)
      ∷ add_controller (workload_controller "daemonset-controller" daemon_set_gvk)
      ∷ add_controller vpa_controller
      ∷ []

  abbrev checks : List StartCall
  checks = add_healthz_check "healthz" ∷ add_readyz_check "readyz" ∷ []

  -- Everything in the order in which it is to be done.
  abbrev pub plan : List StartCall
  plan =
      install_loggers (init_logging flags)
      ∷ create_manager manager
      ∷ (controllers ++ (checks ++ (start_manager ∷ [])))

module _ {RestConfig : Type 0} (env : Environment RestConfig) where
  prepare_silent : (flags : Options) → (prepare env flags).calls ≡ []
  unfolding prepare ◌>>=◌
  prepare_silent flags = ground arith

  prepare-Follows : (flags : Options) → Follows (prepare env flags) []
  prepare-Follows flags = record {
    initial = rw prepare_silent tt;
    complete = λ a e. prepare_silent flags;
  }

  options_lem : (flags : Options) (cfg : Config) → manager_options flags ≡ manager flags cfg
  unfolding manager_options metrics_server_options tls_opts
  options_lem flags cfg = ground arith

  connect-Follows :
      (flags : Options) (cfg : Config)
      → Follows (connect env flags) (create_manager (manager flags cfg) ∷ [])
  unfolding connect
  connect-Follows flags cfg = Follows-bind _ [] _ _ (Follows-lift env.get_config) (λ rest_cfg _.
      Follows-bind _ [] _ _ (Follows-lift _) (λ _ _. rw (options_lem flags cfg) (Follows-call _ _)))

  add_controllers-Follows :
      (flags : Options) (cfg : Config)
      → Follows
          (add_controllers env (profiles_of flags cfg) (meta_of flags))
          (controllers flags cfg)
  unfolding add_controllers add profiles_of meta_of setup_deployment setup_stateful_set
      setup_daemon_set setup_vpa
  add_controllers-Follows flags cfg = Follows-bind _ (_ ∷ []) _ _ (Follows-call _ _) (λ _ _.
      Follows-bind _ (_ ∷ []) _ _ (Follows-call _ _)
        (λ _ _. Follows-bind _ (_ ∷ []) _ _ (Follows-call _ _) (λ _ _. Follows-call _ _)))

  add_checks-Follows :
      (flags : Options) (cfg : Config) → Follows (add_checks env) (checks flags cfg)
  unfolding add_checks
  add_checks-Follows flags cfg =
      Follows-bind _ (_ ∷ []) _ _ (Follows-call _ _) (λ _ _. Follows-call _ _)

  run_with-Follows :
      (flags : Options) (cfg : Config)
      → (prepare env flags).result ≡ ok cfg
      → Follows (run_with env flags) (plan flags cfg)
  unfolding run_with
  run_with-Follows flags cfg prepared = Follows-bind _ (_ ∷ []) _ _ (Follows-call _ _) (λ _ _.
      Follows-bind _ [] _ _ (prepare-Follows flags) (λ c e.
        let same : c ≡ cfg = cc (e, prepared) in
        rw same (
          Follows-bind _ (_ ∷ []) _ _ (connect-Follows flags cfg) (λ _ _.
            Follows-bind _ (controllers flags cfg) _ _ (add_controllers-Follows flags cfg) (λ _ _.
              Follows-bind _ (checks flags cfg) _ _ (add_checks-Follows flags cfg)
                (λ _ _. Follows-call _ _))))))

  run_with-stops :
      (flags : Options) (e : Error)
      → (prepare env flags).result ≡ err e
      → run_with env flags
        ≡ record { result = err e; calls = install_loggers (init_logging flags) ∷ [] }
  unfolding run_with ◌>>=◌
  run_with-stops flags e failed = rw (failed, prepare_silent) refl

  -- The profiles file does not load, or what it holds is not valid, or the keys are refused.
  abbrev pub Refused : Options → Error → Type 0
  Refused flags e =
      (load_file env.files flags.config_path ≡ err e)
      ⊎ ((loaded : Config) × (load_file env.files flags.config_path ≡ ok loaded)
          × ((validate env.engine flags.default_name_template loaded ≡ err e)
              ⊎ (validate_unique_keys (some (meta_keys flags)) ≡ err e)))

  prepare-Refused :
      (flags : Options) (e : Error) → (prepare env flags).result ≡ err e → Refused flags e
  unfolding prepare ◌>>=◌
  prepare-Refused flags e h = elim (Result-cases (load_file env.files flags.config_path)) [
    | inr (f, l) ↦ inl (ground (arith, l, h))
    | inl (loaded, l) ↦
        elim (Result-cases (validate env.engine flags.default_name_template loaded)) [
          | inr (f, v) ↦ inr (loaded, l, inl (ground (arith, l, v, h)))
          | inl (cfg, v) ↦ inr (loaded, l, inr (ground (arith, l, v, h)))
        ]
  ]

  module _ (version : String) (args : List String) where
    -- Once the flags have parsed, and whatever the libraries answer, Run does one of two things. Either
    -- the profiles file or the keys are refused: it returns an error after it has installed the
    -- loggers, and calls nothing else. Or it makes an initial part of these calls, and all of them if it
    -- succeeds, each with the values of the flags and of the profiles file as it was loaded and
    -- validated: the loggers; the manager with its metrics server, probe address, leader election,
    -- protocols and namespaces; the controllers for Deployments, StatefulSets, DaemonSets and VPAs,
    -- with their profiles, keys and watches; both health checks; and last the start.
    pub run_in_order :
        (flags : Options)
        → parse_args env.tiny_flags args version ≡ ok flags
        → ((e : Error) × Refused flags e
            × (run env version args
                ≡ record { result = err e; calls = install_loggers (init_logging flags) ∷ [] }))
          ⊎ ((loaded : Config) × (cfg : Config) × (load_file env.files flags.config_path
                ≡ ok loaded)
              × (validate env.engine flags.default_name_template loaded ≡ ok cfg)
              × (validate_unique_keys (some (meta_keys flags)) ≡ ok tt)
              × Follows (run env version args) (plan flags cfg))
    unfolding run
    run_in_order flags parsed = elim (Result-cases (prepare env flags).result) [
      | inr (e, failed) ↦
          inl (e, prepare-Refused flags e failed, rw parsed (run_with-stops flags e failed))
      | inl (cfg, prepared) ↦
          let (loaded, l, v, u) = (prepare_iff env flags cfg).0 prepared in
          inr (loaded, cfg, l, v, u, rw parsed (run_with-Follows flags cfg prepared))
    ]
