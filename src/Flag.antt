-- ===== src/Flag.antt =====
-- internal/flag/flag.go: the options of the program, the flags that it declares, and ParseArgs. The
-- library tinyflags, which parses, is a parameter.
use autovpa.Common.{
  String, Bool, true, false, ℕ, not, Option, none, some, List, [], ◌∷◌, Map, ◌≡◌, ◌⊎◌, All, elem,
}
use autovpa.Kube.{Error, Result, ok, err}

abbrev pub profile_annotation : String
profile_annotation = "autovpa.containeroo.ch/profile"

abbrev pub managed_label : String
managed_label = "autovpa.containeroo.ch/managed"

abbrev pub default_name_template : String
default_name_template = "{{ .WorkloadName }}-{{ .Profile }}-vpa"

pub record Options : Type 0 where
  pub watch_namespaces : List String
  pub metrics_addr : String
  pub leader_election : Bool
  pub probe_addr : String
  pub secure_metrics : Bool
  pub enable_http2 : Bool
  pub enable_metrics : Bool
  pub log_encoder : String
  pub log_stacktrace_level : String
  pub log_dev : Bool
  pub profile_annotation : String
  pub managed_label : String
  pub default_name_template : String
  pub config_path : String
  pub crd_check : Bool
  pub skip_manager_start : Bool
  pub overridden_values : Map String

-- The kind of a flag with its default; a `net.TCPAddr` without an IP has a port only.
pub data Kind : Type 0 where
  string_flag : String → Kind
  bool_flag : Bool → Kind
  string_slice_flag : List String → Kind
  tcp_addr_flag : (port : ℕ) → Kind

-- A declared flag. Texts for the help output are left out.
pub record Flag : Type 0 where
  pub name : String
  pub kind : Kind
  pub short : Option String
  pub strict : Bool
  pub choices : List String

pub record FlagSet : Type 0 where
  pub name : String
  pub version : String
  pub env_prefix : String
  pub flags : List Flag

-- What a successful parse leaves: the value of every flag, the values with which its Finalize
-- function was called, in order, and the values that were overridden.
pub record Parsed : Type 0 where
  pub string_value : String → String
  pub bool_value : String → Bool
  pub slice_value : String → List String
  -- TCPAddr.String()
  pub address_value : String → String
  pub finalized : String → List Bool
  pub overridden : Map String

pub record TinyFlags : Type 0 where
  pub parse : FlagSet → (args : List String) → Result Parsed
  pub is_help_requested : Error → Bool
  pub is_version_requested : Error → Bool

abbrev plain : String → Kind → Flag
plain name kind = record { name = name; kind = kind; short = none; strict = false; choices = [] }

abbrev strict_bool : String → Bool → Flag
strict_bool name v = record (plain name (bool_flag v)) { strict = true }

-- The declarations, in the order of the source.
abbrev pub declared : List Flag
declared =
    record (plain "config" (string_flag "config.yaml")) { short = some "c" }
    ∷ plain "disable-crd-check" (bool_flag false)
    ∷ plain "profile-annotation" (string_flag profile_annotation)
    ∷ plain "managed-label" (string_flag managed_label)
    ∷ plain "vpa-name-template" (string_flag default_name_template)
    ∷ plain "watch-namespace" (string_slice_flag [])
    ∷ strict_bool "metrics-enabled" true
    ∷ plain "metrics-bind-address" (tcp_addr_flag 8443)
    ∷ strict_bool "metrics-secure" true
    ∷ plain "health-probe-bind-address" (tcp_addr_flag 8081)
    ∷ strict_bool "enable-http2" false
    ∷ strict_bool "leader-elect" true
    ∷ plain "skip-manager-start" (bool_flag false)
    ∷ record (plain "log-encoder" (string_flag "json")) { choices = "json" ∷ "console" ∷ [] }
    ∷ plain "log-devel" (bool_flag false)
    ∷ record (plain "log-stacktrace-level" (string_flag "panic")) {
      choices = "info" ∷ "error" ∷ "panic" ∷ [];
    }
    ∷ []

unfoldable pub flag_set : (version : String) → FlagSet
flag_set version = record {
  name = "autovpa";
  version = version;
  env_prefix = "AUTO_VPA";
  flags = declared;
}

-- The Finalize function of disable-crd-check assigns CRDCheck, which is false before.
unfoldable pub finalize : (crd_check : Bool) → List Bool → Bool
finalize crd_check [] = crd_check
finalize crd_check (v ∷ l) = finalize (not v) l

-- What the parse and the three assignments after it leave in the options.
unfoldable pub options_of : Parsed → Options
unfolding finalize
options_of p = record {
  watch_namespaces = p.slice_value "watch-namespace";
  metrics_addr = p.address_value "metrics-bind-address";
  leader_election = p.bool_value "leader-elect";
  probe_addr = p.address_value "health-probe-bind-address";
  secure_metrics = p.bool_value "metrics-secure";
  enable_http2 = p.bool_value "enable-http2";
  enable_metrics = p.bool_value "metrics-enabled";
  log_encoder = p.string_value "log-encoder";
  log_stacktrace_level = p.string_value "log-stacktrace-level";
  log_dev = p.bool_value "log-devel";
  profile_annotation = p.string_value "profile-annotation";
  managed_label = p.string_value "managed-label";
  default_name_template = p.string_value "vpa-name-template";
  config_path = p.string_value "config";
  crd_check = finalize false (p.finalized "disable-crd-check");
  skip_manager_start = p.bool_value "skip-manager-start";
  overridden_values = p.overridden;
}

abbrev pub parsed_options : Result Parsed → Result Options
parsed_options (err e) = err e
parsed_options (ok p) = ok (options_of p)

unfoldable pub parse_args : TinyFlags → (args : List String) → (version : String) → Result Options
unfolding flag_set options_of
parse_args tf args version = parsed_options (tf.parse (flag_set version) args)

-- tinyflags accepts for a flag with Choices only one of them.
pub record RespectsChoices (tf : TinyFlags) : Type 0 where
  pub chosen :
      (set : FlagSet) (args : List String) (p : Parsed)
      → tf.parse set args ≡ ok p
      → All
          (λ (f : Flag). (f.choices ≡ []) ⊎ (elem (p.string_value f.name) f.choices ≡ true))
          set.flags
