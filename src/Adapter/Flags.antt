-- ===== src/Adapter/Flags.antt =====
-- src/cmd/gridware-adapter/main.go: the flags of the three subcommands, with their defaults.
use qpu_resource.Prelude.{
  Bool, true, false, List, [], ◌∷◌, ◌++◌, Option, none, some, Text, codes, text_eq, if◌then◌else◌,
}
use qpu_resource.Prelude.Int.{ℤ, pos}
use qpu_resource.Flags.{FlagSet, parse_bool}
use qpu_resource.Flags.Numbers.{parse_flag_int}
use qpu_resource.Adapter.Options.{ResourceOptions}
use qpu_resource.Adapter.HookOptions.{QueueHookOptions}

-- The values of the flags. Each subcommand reads those that it has flags for.
pub record CommandFlags : Type 0 where
  pub qconf : Text
  pub dry_run : Bool
  pub hosts : Text
  pub host_value : Text
  pub resource : ResourceOptions
  pub hooks : QueueHookOptions
  pub queue : Text
  pub prolog : Text
  pub epilog : Text

abbrev pub default_resource_name : Text
default_resource_name = codes "qpu"

unfoldable pub default_flags : CommandFlags
default_flags = record {
  qconf = codes "qconf";
  dry_run = false;
  hosts = [];
  host_value = [];
  resource = record {
    enable_slots = false;
    slots_name = codes "qpu_slots";
    slots_capacity = pos 1;
    slots_scope = codes "host";
    enable_load_sensor = false;
    ready_name = codes "qpu_ready";
    load_sensor_host = [];
    load_sensor_path = [];
  };
  hooks = record {
    config_path = codes "/etc/qrmi/qrmi_config.json";
    resource_name = default_resource_name;
    slots_resource_name = codes "qpu_slots";
    qstat_path = codes "qstat";
    hook_user = [];
    log_level = [];
    launcher = [];
  };
  queue = [];
  prolog = [];
  epilog = [];
}

-- One flag: its name, whether it is Boolean, and what its value does.
pub record Flag : Type 0 where
  pub name : Text
  pub is_bool : Bool
  pub set : Text → CommandFlags → Option CommandFlags

-- `fs.String`.
abbrev string_flag : Text → (Text → CommandFlags → CommandFlags) → Flag
string_flag name put = record { name = name; is_bool = false; set = λ value c. some (put value c) }

abbrev with_bool :
    (Bool → CommandFlags → CommandFlags) → CommandFlags → Option Bool → Option CommandFlags
with_bool put c none = none
with_bool put c (some b) = some (put b c)

-- `fs.Bool`.
abbrev bool_flag : Text → (Bool → CommandFlags → CommandFlags) → Flag
bool_flag name put = record {
  name = name;
  is_bool = true;
  set = λ value c. with_bool put c (parse_bool value);
}

abbrev with_int : (ℤ → CommandFlags → CommandFlags) → CommandFlags → Option ℤ → Option CommandFlags
with_int put c none = none
with_int put c (some n) = some (put n c)

-- `fs.Int`.
abbrev int_flag : Text → (ℤ → CommandFlags → CommandFlags) → Flag
int_flag name put = record {
  name = name;
  is_bool = false;
  set = λ value c. with_int put c (parse_flag_int value);
}

abbrev client_flags : List Flag
client_flags =
    string_flag (codes "qconf") (λ v c. record c { qconf = v })
    ∷ bool_flag (codes "dry-run") (λ v c. record c { dry_run = v })
    ∷ []

abbrev resource_flags : List Flag
resource_flags =
    string_flag (codes "hosts") (λ v c. record c { hosts = v })
    ∷ string_flag (codes "host-value") (λ v c. record c { host_value = v })
    ∷ bool_flag (codes "enable-qpu-slots")
        (λ v c. record c { resource = record c.resource { enable_slots = v } })
    ∷ string_flag (codes "qpu-slots-name")
        (λ v c. record c { resource = record c.resource { slots_name = v } })
    ∷ int_flag (codes "qpu-slots-capacity")
        (λ v c. record c { resource = record c.resource { slots_capacity = v } })
    ∷ string_flag (codes "qpu-slots-scope")
        (λ v c. record c { resource = record c.resource { slots_scope = v } })
    ∷ bool_flag (codes "enable-load-sensor")
        (λ v c. record c { resource = record c.resource { enable_load_sensor = v } })
    ∷ string_flag (codes "qpu-ready-name")
        (λ v c. record c { resource = record c.resource { ready_name = v } })
    ∷ string_flag (codes "load-sensor-host")
        (λ v c. record c { resource = record c.resource { load_sensor_host = v } })
    ∷ string_flag (codes "load-sensor-path")
        (λ v c. record c { resource = record c.resource { load_sensor_path = v } })
    ∷ []

abbrev hook_flags : List Flag
hook_flags =
    string_flag (codes "qstat") (λ v c. record c { hooks = record c.hooks { qstat_path = v } })
    ∷ string_flag (codes "qrmi-config")
        (λ v c. record c { hooks = record c.hooks { config_path = v } })
    ∷ string_flag (codes "hook-user") (λ v c. record c { hooks = record c.hooks { hook_user = v } })
    ∷ string_flag (codes "launcher") (λ v c. record c { hooks = record c.hooks { launcher = v } })
    ∷ string_flag (codes "hook-log-level")
        (λ v c. record c { hooks = record c.hooks { log_level = v } })
    ∷ []

abbrev hook_name_flags : List Flag
hook_name_flags =
    string_flag (codes "qpu-resource-name")
      (λ v c. record c { hooks = record c.hooks { resource_name = v } })
    ∷ string_flag (codes "qpu-slots-name")
        (λ v c. record c { hooks = record c.hooks { slots_resource_name = v } })
    ∷ []

abbrev queue_flags : List Flag
queue_flags =
    string_flag (codes "queue") (λ v c. record c { queue = v })
    ∷ string_flag (codes "prolog") (λ v c. record c { prolog = v })
    ∷ string_flag (codes "epilog") (λ v c. record c { epilog = v })
    ∷ []

unfoldable find_flag : Text → List Flag → Option Flag
unfolding text_eq
find_flag name [] = none
find_flag name (f ∷ fs) =
    let rest = find_flag name fs in if text_eq f.name name then some f else rest

abbrev kind_of : Option Flag → Option Bool
kind_of none = none
kind_of (some f) = some f.is_bool

abbrev set_of : Option Flag → Text → CommandFlags → Option CommandFlags
set_of none value c = none
set_of (some f) value c = f.set value c

abbrev flag_set : List Flag → FlagSet CommandFlags
flag_set fs = record {
  is_bool = λ name. kind_of (find_flag name fs);
  set = λ name value c. set_of (find_flag name fs) value c;
}

unfoldable pub ensure_resource_flags : FlagSet CommandFlags
unfolding find_flag parse_bool parse_flag_int
ensure_resource_flags = flag_set (client_flags ++ resource_flags)

unfoldable pub setup_qrmi_support_flags : FlagSet CommandFlags
unfolding find_flag parse_bool parse_flag_int
setup_qrmi_support_flags =
    flag_set (client_flags ++ (hook_flags ++ (resource_flags ++ queue_flags)))

unfoldable pub configure_queue_hooks_flags : FlagSet CommandFlags
unfolding find_flag parse_bool parse_flag_int
configure_queue_hooks_flags =
    flag_set (client_flags ++ (hook_flags ++ (hook_name_flags ++ queue_flags)))
