-- ===== src/App/Tests.antt =====
-- A start of the program in a sample environment, and the theorems about it there.
use mathlib.Core.Path.{subst}
use autovpa.Common.{
  inl, inr, ◌&&◌, and_true, arith, All, index?, Bool-cases, String, Bool, true, false, none, some,
  List, [], ◌∷◌, ◌≡◌, ◌↔◌, ◌⊎◌, ◌||◌, refl, elem, ◌==◌, if◌then◌else◌,
}
use autovpa.Kube.{Error, failure, Result, ok, err, Object, GroupVersionKind}
use autovpa.Effect.Emits.{Emits}
use autovpa.Flag.{Flag, Options, Parsed, TinyFlags, RespectsChoices, parse_args, options_of}
use autovpa.Logging.{init_logging}
use autovpa.Logging.Laws.{IsNamed, init_logging-IsNamed}
use autovpa.Config.{Config, validate}
use autovpa.Config.Load.{load_file}
use autovpa.Utils.Names.{render_name_template}
use autovpa.Utils.Keys.{validate_unique_keys, ensure_vpa_resource}
use autovpa.Utils.Sort.{text_leb}
use autovpa.Config.Valid.{IsValid}
use autovpa.Controller.Base.{reconcile_workload}
use autovpa.Controller.Base.Writes.{WritesAnnotated}
use autovpa.App.{Environment, meta_keys, reconciler_of, check_crd, run, main}
use autovpa.App.Steps.{install_loggers, add_controller, starts}
use autovpa.App.Ready.{Starts, IsReady}
use autovpa.App.Order.{Refused, plan, run_in_order}
use autovpa.App.Follows.{Follows}
use autovpa.Controller.Setup.{Registration}
use autovpa.Common.{In}
use autovpa.App.Outcome.{HasSettings, starts-run_iff, main-zero_iff, started-WritesAnnotated}
use autovpa.Samples.{
  cluster_client, sample_platform, sample_engine, gold, sample-AnswersKey, sample-KeepsContent,
}

-- What the flags are when none is given; the arguments "--help" and "--log-encoder" are known.
abbrev default_string : String → String
default_string name =
    if name == "log-encoder"
    then "json"
    else if name == "log-stacktrace-level"
    then "panic"
    else if name == "config"
    then "config.yaml"
    else if name == "profile-annotation"
    then "autovpa.containeroo.ch/profile"
    else if name == "managed-label"
    then "autovpa.containeroo.ch/managed"
    else "{{ .WorkloadName }}-{{ .Profile }}-vpa"

abbrev defaults : Parsed
defaults = record {
  string_value = default_string;
  bool_value =
      λ name. (name == "metrics-enabled") || (name == "metrics-secure") || (name == "leader-elect");
  slice_value = λ name. [];
  address_value = λ name. if name == "metrics-bind-address" then ":8443" else ":8081";
  finalized = λ name. false ∷ [];
  overridden = none;
}

no_choices : List String → Bool
no_choices [] = true
no_choices (_ ∷ _) = false

respects : List Flag → Bool
unfolding no_choices
respects [] = true
respects (f ∷ l) = (no_choices f.choices || elem (default_string f.name) f.choices) && respects l

chosen_default :
    (choices : List String) (name : String)
    → (no_choices choices || elem name choices) ≡ true
    → (choices ≡ []) ⊎ (elem name choices ≡ true)
unfolding no_choices
chosen_default [] name h = inl refl
chosen_default (c ∷ l) name h = inr h

All-chosen :
    (l : List Flag)
    → respects l ≡ true
    → All (λ (f : Flag). (f.choices ≡ []) ⊎ (elem (default_string f.name) f.choices ≡ true)) l
unfolding respects
All-chosen [] h = tt
All-chosen (f ∷ l) h =
    let (p, q) =
      and_true (no_choices f.choices || elem (default_string f.name) f.choices) (respects l) h in
    (chosen_default f.choices (default_string f.name) p, All-chosen l q)

-- Arguments are never accepted; without them the defaults are, if they are among the choices.
abbrev parse_sample : List Flag → List String → Result Parsed
parse_sample flags [] = if respects flags then ok defaults else err (failure "default")
parse_sample flags (_ ∷ _) = err (failure "help")

parse_sample-RespectsChoices :
    (flags : List Flag) (args : List String) (p : Parsed)
    → parse_sample flags args ≡ ok p
    → All (λ (f : Flag). (f.choices ≡ []) ⊎ (elem (p.string_value f.name) f.choices ≡ true)) flags
parse_sample-RespectsChoices flags [] p h = elim (Bool-cases (respects flags)) [
  | inl good ↦
      let same : defaults ≡ p = ground (arith, h, good) in
      subst
        (λ (q : Parsed).
          All (λ (f : Flag). (f.choices ≡ []) ⊎ (elem (q.string_value f.name) f.choices ≡ true))
            flags)
        same (All-chosen flags good)
  | inr bad ↦ absurd (ground (arith, h, bad))
]
parse_sample-RespectsChoices flags (a ∷ args) p h = cc h

abbrev sample_flags : TinyFlags
sample_flags = record {
  parse = λ set args. parse_sample set.flags args;
  is_help_requested = λ e. true;
  is_version_requested = λ e. false;
}

abbrev sample_config : Config
sample_config = record { default_profile = "gold"; profiles = some (("gold", gold) ∷ []) }

abbrev sample_environment : Environment Unit
sample_environment = record {
  tiny_flags = sample_flags;
  files = record { read_file = λ path. ok ""; unmarshal_strict = λ content. ok sample_config };
  engine = sample_engine;
  discovery = record {
    new_client = λ cfg. ok tt;
    rest_mapping = λ cfg group kind version. ok tt;
    is_no_match = λ e. false;
  };
  get_config = ok tt;
  new_manager = λ cfg options. ok tt;
  complete = λ registration. ok tt;
  add_check = λ name. ok tt;
  start = ok tt;
}

abbrev default_options : Options
default_options = options_of defaults

sample_flags-RespectsChoices : RespectsChoices sample_flags
sample_flags-RespectsChoices = record {
  chosen = λ set args p h. parse_sample-RespectsChoices set.flags args p h;
}

sample_parse : parse_args sample_flags [] "v1" ≡ ok default_options
unfolding parse_args respects
sample_parse = refl

sample-IsReady : IsReady sample_environment default_options sample_config sample_config tt
unfolding load_file validate render_name_template index? validate_unique_keys text_leb check_crd
    ensure_vpa_resource options_of
sample-IsReady = record {
  loads = refl;
  validates = refl;
  unique = refl;
  connects = refl;
  finds_crd = λ _. refl;
  creates = refl;
  adds_deployment = refl;
  adds_stateful_set = refl;
  adds_daemon_set = refl;
  adds_vpa = refl;
  adds_healthz = refl;
  adds_readyz = refl;
}

run_in_order_example :
    ((e : Error) × Refused sample_environment default_options e
      × (run sample_environment "v1" []
          ≡ record { result = err e; calls = install_loggers (init_logging default_options) ∷ [] }))
    ⊎ ((loaded : Config) × (cfg : Config) × (load_file sample_environment.files "config.yaml"
          ≡ ok loaded)
        × (validate sample_engine default_options.default_name_template loaded ≡ ok cfg)
        × (validate_unique_keys (some (meta_keys default_options)) ≡ ok tt)
        × Follows (run sample_environment "v1" []) (plan default_options cfg))
unfolding options_of
run_in_order_example = run_in_order sample_environment "v1" [] default_options sample_parse

sample_starts : starts (run sample_environment "v1" []).calls ≡ true
sample_starts =
    (starts-run_iff sample_environment "v1" []).1
      (default_options, sample_parse, (sample_config, sample_config, tt, sample-IsReady))

starts-run_iff_example : (starts (run sample_environment "v1" []).calls ≡ true) ↔ (
    (flags : Options) × (parse_args sample_flags [] "v1" ≡ ok flags)
    × Starts sample_environment flags)
starts-run_iff_example = starts-run_iff sample_environment "v1" []

main-zero_iff_example : (main sample_environment "v1" ("--help" ∷ []) ≡ 0) ↔ (
    ((e : Error) × (parse_args sample_flags ("--help" ∷ []) "v1" ≡ err e) × (true ≡ true))
    ⊎ (((flags : Options) × (parse_args sample_flags ("--help" ∷ []) "v1" ≡ ok flags)
          × Starts sample_environment flags)
        × (◌≡◌ {A = Result Unit} (ok tt) (ok tt))))
main-zero_iff_example = main-zero_iff sample_environment "v1" ("--help" ∷ [])

started-WritesAnnotated_example :
    (flags : Options) × (loaded : Config) × (cfg : Config) × (parse_args sample_flags [] "v1"
      ≡ ok flags)
    × (load_file sample_environment.files flags.config_path ≡ ok loaded)
    × (validate sample_engine flags.default_name_template loaded ≡ ok cfg)
    × IsValid sample_engine flags.default_name_template cfg
    × ((r : Registration)
        → In (add_controller r) (run sample_environment "v1" []).calls
        → HasSettings sample_environment
            (reconciler_of cluster_client sample_platform sample_engine flags cfg)
            r)
    × ((obj : Object) (gvk : GroupVersionKind)
        → Emits
            (WritesAnnotated
              (reconciler_of cluster_client sample_platform sample_engine flags cfg)
              obj
              gvk)
            (reconcile_workload
              (reconciler_of cluster_client sample_platform sample_engine flags cfg)
              obj
              gvk))
started-WritesAnnotated_example =
    started-WritesAnnotated sample_environment cluster_client sample_platform sample-KeepsContent
      sample-AnswersKey "v1" [] sample_starts

init_logging-IsNamed_example :
    IsNamed default_options (init_logging default_options).returned
    × IsNamed default_options (init_logging default_options).controller_runtime
    × IsNamed default_options (init_logging default_options).klog
init_logging-IsNamed_example =
    init_logging-IsNamed sample_flags sample_flags-RespectsChoices [] "v1" default_options
      sample_parse
