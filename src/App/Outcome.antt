-- ===== src/App/Outcome.antt =====
-- What a start of the program comes to: internal/app/run.go and cmd/main.go.
use mathlib.Core.Path.{subst}
use autovpa.Config.{validate}
use autovpa.Config.Load.{load_file}
use autovpa.Controller.Base.Desired.{BaseReconciler}
use autovpa.Controller.Setup.{
  Registration, setup_deployment, setup_stateful_set, setup_daemon_set, setup_vpa,
}
use autovpa.Common.{
  none, In, String, Bool, true, false, ◌||◌, some, index?, lookup, List, ◌≡◌, ◌≢◌, ◌↔◌, ◌⊎◌, inl,
  inr, eq_iff, refl, sym, ap, ◌∙◌, arith,
}
use autovpa.Kube.{Client, Platform, Error, Object, GroupVersionKind, Result, ok, err}
use autovpa.Kube.Laws.{KeepsContent, AnswersKey}
use autovpa.Effect.Emits.{Emits}
use autovpa.Flag.{Options, parse_args}
use autovpa.Config.{Config}
use autovpa.Config.Valid.{IsValid, validate_iff}
use autovpa.Utils.Keys.{validate_unique_keys}
use autovpa.Utils.Keys.Laws.{validate_unique_keys_iff}
use autovpa.Controller.Base.{reconcile_workload}
use autovpa.Controller.Base.Writes.{WritesAnnotated, reconcile_workload-WritesAnnotated}
use autovpa.Logging.{init_logging, setup_logger}
use autovpa.App.{
  prepare, connect, check_crd, manager_options, metrics_server_options, tls_opts, Environment,
  profiles_of, meta_of, meta_keys, reconciler_of, run_with, flag_error, run_parsed, run, main,
  exit_code,
}
use autovpa.App.Steps.{add_controller, starts, Startup}
use autovpa.App.Ready.{
  IsReady, Starts, start_calls, run_with_ready, starts-run_with, result-run_with,
}

module _ {RestConfig : Type 0} (env : Environment RestConfig) (version : String)
    (args : List String) where
  abbrev asks_only : Error → Bool
  asks_only e = env.tiny_flags.is_help_requested e || env.tiny_flags.is_version_requested e

  flag_error_quiet : (e : Error) → starts (flag_error env e).calls ≡ false
  unfolding flag_error
  flag_error_quiet e = ground arith

  -- A start that passes every check makes all calls and returns what the start returns.
  run_started :
      (flags : Options) (loaded cfg : Config) (rest_cfg : RestConfig)
      → parse_args env.tiny_flags args version ≡ ok flags
      → IsReady env flags loaded cfg rest_cfg
      → run env version args ≡ record { result = env.start; calls = start_calls env flags cfg }
  unfolding run
  run_started flags loaded cfg rest_cfg p r = rw p (run_with_ready env flags loaded cfg rest_cfg r)

  starts-run_parsed :
      (r : Result Options)
      → starts (run_parsed env r).calls ≡ true
      → (flags : Options) × (r ≡ ok flags) × Starts env flags
  starts-run_parsed (ok flags) h = (flags, refl, starts-run_with env flags h)
  starts-run_parsed (err e) h = cc (flag_error_quiet e, h)

  -- The manager is started exactly when the flags parse, the profiles file loads and is valid, the
  -- keys of the managed label and of the profile annotation are accepted, a REST configuration is
  -- found, the CRD is there unless its check is disabled, and the manager, the four controllers and
  -- the two health checks can be set up.
  pub starts-run_iff :
      (starts (run env version args).calls ≡ true)
      ↔ ((flags : Options) × (parse_args env.tiny_flags args version ≡ ok flags) × Starts env flags)
  unfolding run
  starts-run_iff = (
    starts-run_parsed (parse_args env.tiny_flags args version),
    λ (flags, p, (loaded, cfg, rest_cfg, r)).
        ap (λ (o : Startup (Unit {0})). starts o.calls) (run_started flags loaded cfg rest_cfg p r),
  )

  exit_code_zero : (r : Result (Unit {0})) → exit_code env r ≡ 0 → r ≡ ok tt
  exit_code_zero (ok _) h = refl
  exit_code_zero (err e) h = absurd (omega arith)

  exit_zero :
      (r : Result Options)
      → exit_code env (run_parsed env r).result ≡ 0
      → ((e : Error) × (r ≡ err e) × (asks_only e ≡ true))
        ⊎ (((flags : Options) × (r ≡ ok flags) × Starts env flags) × (env.start ≡ ok tt))
  unfolding flag_error
  exit_zero (ok flags) h =
      let (s, started) = result-run_with env flags (exit_code_zero (run_with env flags).result h) in
      inr ((flags, refl, s), started)
  exit_zero (err e) h = inl (e, refl, ground (arith, h))

  zero_exit :
      ((e : Error) × (parse_args env.tiny_flags args version ≡ err e) × (asks_only e ≡ true))
        ⊎ (((flags : Options) × (parse_args env.tiny_flags args version ≡ ok flags)
              × Starts env flags)
            × (env.start ≡ ok tt))
      → main env version args ≡ 0
  unfolding main run flag_error
  zero_exit (inl (e, p, asks)) = rw p (ground (arith, asks))
  zero_exit (inr ((flags, p, (loaded, cfg, rest_cfg, r)), started)) =
      ap (λ (o : Startup (Unit {0})). exit_code env o.result)
        (run_started flags loaded cfg rest_cfg p r)
      ∙ ap (exit_code env) started

  -- The process exits with the status 0 exactly when the help or the version was asked for, or the
  -- manager was started as above and ended without an error.
  pub main-zero_iff : (main env version args ≡ 0) ↔ (
      ((e : Error) × (parse_args env.tiny_flags args version ≡ err e) × (asks_only e ≡ true))
      ⊎ (((flags : Options) × (parse_args env.tiny_flags args version ≡ ok flags)
            × Starts env flags)
          × (env.start ≡ ok tt)))
  unfolding main run
  main-zero_iff = (exit_zero (parse_args env.tiny_flags args version), zero_exit)

-- A controller of a started manager has other keys for the managed label and for the profile, and
-- its profiles come from a valid configuration.
module _ {RestConfig : Type 0} (env : Environment RestConfig) where
  other : ◌≢◌ {A = String} "Managed" "Profile"
  other same = let e : false ≡ true = (eq_iff "Managed" "Profile").1 same in cc e

  ready-keys_differ :
      (flags : Options)
      → validate_unique_keys (some (meta_keys flags)) ≡ ok tt
      → flags.managed_label ≢ flags.profile_annotation
  unfolding index? lookup
  ready-keys_differ flags u same =
      let distinct =
        ((validate_unique_keys_iff (some (meta_keys flags)) (refl, (refl, tt))).0 u).1 in
      let names : ◌≡◌ {A = String} "Managed" "Profile" =
        distinct "Managed" "Profile" flags.managed_label refl (ap some (sym same)) in
      other names

  -- The settings of a registration are those of the reconciler, and the VPA controller has no profiles.
  abbrev pub HasSettings : {W : Type 0} → BaseReconciler W → Registration → Type 0
  HasSettings b r = (r.meta ≡ b.meta) × ((r.profiles ≡ none) ⊎ (r.profiles ≡ some b.profiles))

  module _ {W : Type 0} (client : Client W) (platform : Platform) (flags : Options)
      (cfg : Config) where
    abbrev Fits : Registration → Type 0
    Fits = HasSettings (reconciler_of client platform env.engine flags cfg)

    registered : (r : Registration) → In (add_controller r) (start_calls env flags cfg) → Fits r
    unfolding reconciler_of setup_deployment setup_stateful_set setup_daemon_set setup_vpa
    registered r (inl e) = cc e
    registered r (inr (inl e)) = cc e
    registered r (inr (inr (inl e))) =
        let same : setup_deployment (profiles_of flags cfg) (meta_of flags) ≡ r = cc e in
        subst Fits same (refl, inr refl)
    registered r (inr (inr (inr (inl e)))) =
        let same : setup_stateful_set (profiles_of flags cfg) (meta_of flags) ≡ r = cc e in
        subst Fits same (refl, inr refl)
    registered r (inr (inr (inr (inr (inl e))))) =
        let same : setup_daemon_set (profiles_of flags cfg) (meta_of flags) ≡ r = cc e in
        subst Fits same (refl, inr refl)
    registered r (inr (inr (inr (inr (inr (inl e)))))) =
        let same : setup_vpa (meta_of flags) ≡ r = cc e in subst Fits same (refl, inl refl)
    registered r (inr (inr (inr (inr (inr (inr (inl e))))))) = cc e
    registered r (inr (inr (inr (inr (inr (inr (inr (inl e)))))))) = cc e
    registered r (inr (inr (inr (inr (inr (inr (inr (inr (inl e))))))))) = cc e
    registered r (inr (inr (inr (inr (inr (inr (inr (inr (inr e))))))))) = absurd e

  -- If SetControllerReference changes only owner references and Get answers with the object that
  -- was asked for: whenever the manager was started, the flags have parsed, the profiles file has
  -- been loaded, and validating what it holds has given a configuration that is valid; every
  -- controller that Run has registered has the profiles of this configuration, or none, and the keys
  -- of the flags; and a reconciliation of any workload with these settings writes only VPAs that
  -- WritesAnnotated allows (its own VPA under its profile), and deletes only VPAs that it controls or
  -- that name it as owner.
  pub started-WritesAnnotated :
      {W : Type 0} (client : Client W) (platform : Platform)
      → KeepsContent platform
      → AnswersKey client
      → (version : String) (args : List String) → starts (run env version args).calls ≡ true
      → (flags : Options) × (loaded : Config) × (cfg : Config) × (parse_args env.tiny_flags args
            version
          ≡ ok flags)
        × (load_file env.files flags.config_path ≡ ok loaded)
        × (validate env.engine flags.default_name_template loaded ≡ ok cfg)
        × IsValid env.engine flags.default_name_template cfg
        × ((r : Registration)
            → In (add_controller r) (run env version args).calls
            → HasSettings (reconciler_of client platform env.engine flags cfg) r)
        × ((obj : Object) (gvk : GroupVersionKind)
            → Emits
                (WritesAnnotated (reconciler_of client platform env.engine flags cfg) obj gvk)
                (reconcile_workload (reconciler_of client platform env.engine flags cfg) obj gvk))
  unfolding reconciler_of meta_of
  started-WritesAnnotated client platform content answers version args h =
      let (flags, p, (loaded, cfg, rest_cfg, r)) = (starts-run_iff env version args).0 h in
      let (same, valid) =
        (validate_iff env.engine flags.default_name_template loaded cfg).0 r.validates in
      let made = run_started env version args flags loaded cfg rest_cfg p r in
      (
        flags,
        loaded,
        cfg,
        p,
        r.loads,
        r.validates,
        rw same valid,
        (λ reg at.
            registered client platform flags cfg reg
              (subst (λ (o : Startup (Unit {0})). In (add_controller reg) o.calls) made at)),
        λ obj gvk.
            reconcile_workload-WritesAnnotated (reconciler_of client platform env.engine flags cfg)
              obj gvk (ready-keys_differ flags r.unique) content answers,
      )

  -- What Run does with its options does not depend on skip-manager-start: the manager is started
  -- with it as without it.
  skip_manager_start_unused :
      (flags : Options) (skip : Bool)
      → run_with env (record flags { skip_manager_start = skip }) ≡ run_with env flags
  unfolding run_with prepare connect check_crd manager_options metrics_server_options tls_opts
      profiles_of meta_of init_logging setup_logger
  skip_manager_start_unused flags skip = refl
