-- ===== src/Logging.antt =====
-- internal/logging/logger.go: which zap logger the options ask for. zap is a library; its encoders
-- and levels are the constructors here.
pub mod Laws
use autovpa.Common.{String, Bool, ◌==◌, if◌then◌else◌}
use autovpa.Flag.{Options}

abbrev pub encoder_json : String
encoder_json = "json"

abbrev pub encoder_console : String
encoder_console = "console"

abbrev pub level_info : String
level_info = "info"

abbrev pub level_error : String
level_error = "error"

abbrev pub level_panic : String
level_panic = "panic"

-- zapcore.NewJSONEncoder and zapcore.NewConsoleEncoder, each with one of zap's configurations
pub data EncoderConfig : Type 0 where
  production development : EncoderConfig

pub data Encoder : Type 0 where
  json_encoder console_encoder : EncoderConfig → Encoder

-- uzap.AtomicLevel at a level
pub data Level : Type 0 where
  info error panic : Level

-- zap.Options; the writer is the one that the caller gives
pub record ZapOptions : Type 0 where
  pub development : Bool
  pub encoder : Encoder
  pub stacktrace_level : Level

unfoldable pub encoder : (name : String) → Encoder
encoder name =
    if name == encoder_console then console_encoder development else json_encoder production

unfoldable pub stacktrace_level : (level : String) → Level
stacktrace_level level =
    if level == level_info then info else if level == level_error then error else panic

unfoldable pub setup_logger : Options → ZapOptions
unfolding encoder stacktrace_level
setup_logger flags = record {
  development = flags.log_dev;
  encoder = encoder flags.log_encoder;
  stacktrace_level = stacktrace_level flags.log_stacktrace_level;
}

-- The logger that is returned, and those that controller-runtime and klog are given.
pub record Loggers : Type 0 where
  pub returned : ZapOptions
  pub controller_runtime : ZapOptions
  pub klog : ZapOptions

unfoldable pub init_logging : Options → Loggers
unfolding setup_logger
init_logging flags =
    let logger = setup_logger flags in
    record { returned = logger; controller_runtime = logger; klog = logger }
