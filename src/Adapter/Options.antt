-- ===== src/Adapter/Options.antt =====
-- src/cmd/gridware-adapter/main.go: the options of the resource, from the values of the flags.
use qpu_resource.Prelude.{Bool, not, ◌&&◌, ◌||◌, [], Text, codes, text_eq, is_nil, has_char}
use qpu_resource.Prelude.Int.{ℤ, is_neg}
use qpu_resource.Strings.{trim_space, to_lower, contains_any}
use qpu_resource.Errors.{errorf, Result, ok, ◌>>◌, guard}

abbrev pub global_host : Text
global_host = codes "global"

pub record ResourceOptions : Type 0 where
  pub enable_slots : Bool
  pub slots_name : Text
  pub slots_capacity : ℤ
  pub slots_scope : Text
  pub enable_load_sensor : Bool
  pub ready_name : Text
  pub load_sensor_host : Text
  pub load_sensor_path : Text

abbrev trimmed_options : ResourceOptions → ResourceOptions
trimmed_options o = record o {
  slots_name = trim_space o.slots_name;
  slots_scope = to_lower (trim_space o.slots_scope);
  ready_name = trim_space o.ready_name;
  load_sensor_host = trim_space o.load_sensor_host;
  load_sensor_path = trim_space o.load_sensor_path;
}

abbrev checked_options : ResourceOptions → Result ResourceOptions
checked_options o = do
  guard (not (o.enable_slots && (is_nil o.slots_name || is_neg o.slots_capacity)))
      (errorf "--qpu-slots-name cannot be empty and --qpu-slots-capacity cannot be negative" [])
  guard
      (not (
        o.enable_slots
        && not (text_eq o.slots_scope (codes "host"))
        && not (text_eq o.slots_scope global_host)))
      (errorf "--qpu-slots-scope must be host or global" [])
  guard
      (not (
        o.enable_load_sensor
        && (is_nil o.ready_name || is_nil o.load_sensor_host || is_nil o.load_sensor_path)))
      (errorf
        "--qpu-ready-name, --load-sensor-host, and --load-sensor-path are required with --enable-load-sensor"
        [])
  guard (not (o.enable_load_sensor && contains_any (codes " \t\r\n") o.load_sensor_path))
      (errorf "--load-sensor-path must be an executable path without arguments" [])
  ok o

-- `resourceOptionsFromFlags`: the argument holds the values of the flags.
unfoldable pub resource_options_from_flags : ResourceOptions → Result ResourceOptions
unfolding trim_space to_lower contains_any text_eq has_char
resource_options_from_flags flags = checked_options (trimmed_options flags)
