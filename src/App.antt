-- ===== src/App.antt =====
-- internal/app/run.go and cmd/main.go: the start of the program, from its arguments to the running
-- manager. The libraries that Run calls are an `Environment`. Log lines are left out.
pub mod Steps
pub mod Ready
pub mod Follows
pub mod Order
pub mod Outcome
mod Tests
use autovpa.Common.{String, Bool, false, ℕ, not, ◌||◌, some, List, [], ◌∷◌, Entries, if◌then◌else◌}
use autovpa.Kube.{Error, Result, ok, err, Client, Platform}
use autovpa.Controller.Base.Desired.{BaseReconciler}
use autovpa.Flag.{Options, TinyFlags, parse_args}
use autovpa.Logging.{init_logging}
use autovpa.Config.{Config, validate}
use autovpa.Config.Load.{Files, load_file}
use autovpa.Utils.Names.{TemplateEngine}
use autovpa.Utils.Keys.{Discovery, validate_unique_keys, to_cache_options, ensure_vpa_resource}
use autovpa.Controller.{MetaConfig, ProfileConfig}
use autovpa.Controller.Setup.{
  Registration, setup_deployment, setup_stateful_set, setup_daemon_set, setup_vpa,
}
use Steps.{
  MetricsServerOptions, ManagerOptions, print_out, print_err, install_loggers, create_manager,
  add_controller, add_healthz_check, add_readyz_check, start_manager, Startup, lift, call, ◌>>=◌,
  ◌>>◌,
}

-- What Run calls and does not contain, and what it answers in this start.
pub record Environment (RestConfig : Type 0) : Type 0 where
  pub tiny_flags : TinyFlags
  pub files : Files
  pub engine : TemplateEngine
  pub discovery : Discovery RestConfig
  -- ctrl.GetConfig and ctrl.NewManager
  pub get_config : Result RestConfig
  pub new_manager : RestConfig → ManagerOptions → Result (Unit {0})
  -- Complete, at the end of SetupWithManager
  pub complete : Registration → Result (Unit {0})
  pub add_check : (name : String) → Result (Unit {0})
  pub start : Result (Unit {0})

-- Without --enable-http2 a connection may only choose HTTP/1.1.
unfoldable pub tls_opts : Options → List (List String)
tls_opts flags = if not flags.enable_http2 then ("http/1.1" ∷ []) ∷ [] else []

unfoldable pub metrics_server_options : Options → MetricsServerOptions
unfolding tls_opts
metrics_server_options flags =
    if flags.enable_metrics
    then record {
      bind_address = flags.metrics_addr;
      secure_serving = flags.secure_metrics;
      tls_opts = tls_opts flags;
      authenticated = flags.secure_metrics;
    }
    else record { bind_address = "0"; secure_serving = false; tls_opts = []; authenticated = false }

unfoldable pub manager_options : Options → ManagerOptions
unfolding metrics_server_options to_cache_options
manager_options flags = record {
  metrics = metrics_server_options flags;
  webhook_tls_opts = tls_opts flags;
  health_probe_bind_address = flags.probe_addr;
  leader_election = flags.leader_election;
  leader_election_id = "fc1fdccd.autovpa.containeroo.ch";
  cache = to_cache_options flags.watch_namespaces;
}

unfoldable pub profiles_of : Options → Config → ProfileConfig
profiles_of flags cfg = record {
  name_template = flags.default_name_template;
  default = cfg.default_profile;
  entries = cfg.profiles;
}

unfoldable pub meta_of : Options → MetaConfig
meta_of flags = record {
  profile_key = flags.profile_annotation;
  managed_label = flags.managed_label;
}

-- The BaseReconciler that Run gives to a workload controller.
unfoldable pub reconciler_of :
    {W : Type 0} → Client W → Platform → TemplateEngine → Options → Config → BaseReconciler W
unfolding profiles_of meta_of
reconciler_of client platform engine flags cfg = record {
  kube_client = client;
  platform = platform;
  engine = engine;
  meta = meta_of flags;
  profiles = profiles_of flags cfg;
}

-- The keys that must differ.
abbrev pub meta_keys : Options → Entries String
meta_keys flags = ("Managed", flags.managed_label) ∷ ("Profile", flags.profile_annotation) ∷ []

module _ {RestConfig : Type 0} (env : Environment RestConfig) where
  unfoldable pub check_crd : Options → RestConfig → Result (Unit {0})
  check_crd flags rest_cfg =
      if flags.crd_check then ensure_vpa_resource env.discovery rest_cfg else ok tt

  unfoldable pub add : Registration → Startup (Unit {0})
  add r = call (add_controller r) (env.complete r)

  -- The four calls of SetupWithManager.
  unfoldable pub add_controllers : ProfileConfig → MetaConfig → Startup (Unit {0})
  unfolding add
  add_controllers profiles meta = do
    add (setup_deployment profiles meta)
    add (setup_stateful_set profiles meta)
    add (setup_daemon_set profiles meta)
    add (setup_vpa meta)

  unfoldable pub add_checks : Startup (Unit {0})
  add_checks = do
    call (add_healthz_check "healthz") (env.add_check "healthz")
    call (add_readyz_check "readyz") (env.add_check "readyz")

  -- From the loaded profiles to the REST configuration: what must hold before a manager is made.
  unfoldable pub prepare : Options → Startup Config
  prepare flags = do
    loaded ← lift (load_file env.files flags.config_path)
    cfg ← lift (validate env.engine flags.default_name_template loaded)
    lift (validate_unique_keys (some (meta_keys flags)))
    lift (ok cfg)

  unfoldable pub connect : Options → Startup (Unit {0})
  connect flags = do
    rest_cfg ← lift env.get_config
    lift (check_crd flags rest_cfg)
    call (create_manager (manager_options flags)) (env.new_manager rest_cfg (manager_options flags))

  -- Run, once the flags are parsed.
  unfoldable pub run_with : Options → Startup (Unit {0})
  unfolding prepare connect add_controllers add_checks
  run_with flags = do
    call (install_loggers (init_logging flags)) (ok tt)
    cfg ← prepare flags
    connect flags
    add_controllers (profiles_of flags cfg) (meta_of flags)
    add_checks
    call start_manager env.start

  -- A request for the help or the version is answered, and is no error.
  unfoldable pub flag_error : Error → Startup (Unit {0})
  flag_error e =
      if env.tiny_flags.is_help_requested e || env.tiny_flags.is_version_requested e
      then call (print_out e) (ok tt)
      else call (print_err e) (err e)

  abbrev pub run_parsed : Result Options → Startup (Unit {0})
  run_parsed (ok flags) = run_with flags
  run_parsed (err e) = flag_error e

  unfoldable pub run : (version : String) → (args : List String) → Startup (Unit {0})
  unfolding run_with flag_error
  run version args = run_parsed (parse_args env.tiny_flags args version)

  abbrev pub exit_code : Result (Unit {0}) → ℕ
  exit_code (ok _) = 0
  exit_code (err _) = 1

  -- main: the status of the process
  unfoldable pub main : (version : String) → (args : List String) → ℕ
  unfolding run
  main version args = exit_code (run version args).result
