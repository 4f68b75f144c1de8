-- ===== src/Logging/Laws.antt =====
-- The logger of internal/logging is the one that the accepted flags name.
use autovpa.Common.{String, List, ◌≡◌, ◌⊎◌, inl, inr, arith, true, eq_iff, elem, [], ◌∷◌, refl}
use autovpa.Kube.{ok, err, Result}
use autovpa.Flag.{
  Options, TinyFlags, Parsed, flag_set, options_of, parse_args, RespectsChoices, parsed_options,
}
use autovpa.Logging.{
  Encoder, json_encoder, console_encoder, Level, info, error, panic, encoder, stacktrace_level,
  setup_logger, init_logging, ZapOptions,
}

-- The choice of `log-encoder` and of `log-stacktrace-level` that names an encoder and a level.
abbrev pub encoder_choice : Encoder → String
encoder_choice (json_encoder _) = "json"
encoder_choice (console_encoder _) = "console"

abbrev pub level_choice : Level → String
level_choice info = "info"
level_choice error = "error"
level_choice panic = "panic"

encoder_choice-encoder :
    (name : String)
    → elem name ("json" ∷ "console" ∷ []) ≡ true
    → encoder_choice (encoder name) ≡ name
unfolding encoder
encoder_choice-encoder name h =
    ground (arith, eq_iff "json" name, eq_iff "console" name, eq_iff name "console")

level_choice-stacktrace_level :
    (level : String)
    → elem level ("info" ∷ "error" ∷ "panic" ∷ []) ≡ true
    → level_choice (stacktrace_level level) ≡ level
unfolding stacktrace_level
level_choice-stacktrace_level level h = ground (
  arith,
  eq_iff "info" level,
  eq_iff "error" level,
  eq_iff "panic" level,
  eq_iff level "info",
  eq_iff level "error",
)

choice :
    (name given : String) (l : List String)
    → ((given ∷ l) ≡ []) ⊎ (elem name (given ∷ l) ≡ true)
    → elem name (given ∷ l) ≡ true
choice name given l (inl h) = cc h
choice name given l (inr h) = h

parsed_options_ok :
    (r : Result Parsed) (o : Options)
    → parsed_options r ≡ ok o
    → (p : Parsed) × (r ≡ ok p) × (options_of p ≡ o)
parsed_options_ok (ok p) o h = (p, refl, cc h)
parsed_options_ok (err e) o h = cc h

-- The encoder, the level and the mode are those that the options name.
abbrev pub IsNamed : Options → ZapOptions → Type 0
IsNamed o z =
    (encoder_choice z.encoder ≡ o.log_encoder)
    × (level_choice z.stacktrace_level ≡ o.log_stacktrace_level)
    × (z.development ≡ o.log_dev)

parsed-IsNamed :
    (tf : TinyFlags)
    → RespectsChoices tf
    → (args : List String) (version : String) (p : Parsed) → tf.parse (flag_set version) args ≡ ok p
    → IsNamed (options_of p) (setup_logger (options_of p))
unfolding flag_set options_of setup_logger
parsed-IsNamed tf r args version p h =
    let all = r.chosen (flag_set version) args p h in
    let metrics = all.1.1.1.1.1.1 in
    let logging = metrics.1.1.1.1.1.1.1 in
    (
      encoder_choice-encoder (p.string_value "log-encoder")
          (choice (p.string_value "log-encoder") "json" ("console" ∷ []) logging.0),
      level_choice-stacktrace_level (p.string_value "log-stacktrace-level") (
          choice (p.string_value "log-stacktrace-level") "info" ("error" ∷ "panic" ∷ [])
            logging.1.1.0),
      refl,
    )

-- Whatever arguments are accepted, if tinyflags accepts for a flag with choices only one of them,
-- the logger that is returned and those that are installed in controller-runtime and klog have the
-- encoder and the level of stack traces that the options name, and their development mode.
pub init_logging-IsNamed :
    (tf : TinyFlags)
    → RespectsChoices tf
    → (args : List String) (version : String) (o : Options) → parse_args tf args version ≡ ok o
    → IsNamed o (init_logging o).returned
      × IsNamed o (init_logging o).controller_runtime
      × IsNamed o (init_logging o).klog
unfolding init_logging parse_args
init_logging-IsNamed tf r args version o h =
    let (p, e, same) = parsed_options_ok (tf.parse (flag_set version) args) o h in
    let named = parsed-IsNamed tf r args version p e in rw (← same) (named, named, named)
