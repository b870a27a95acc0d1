-- ===== src/LoadSensor.antt =====
-- src/cmd/qrmi-ocs-load-sensor/main.go: the load sensor, which reports the availability to the
-- scheduler once for every line that it reads.
pub mod Readiness
pub mod Protocol
pub mod Frames
use qpu_resource.Prelude.{
  ℕ, suc, Bool, true, false, not, ◌&&◌, List, [], ◌∷◌, ◌++◌, Option, none, some, Text, codes,
  text_eq, if◌then◌else◌, is_nil,
}
use qpu_resource.Prelude.Int.{ℤ, pos, negsuc}
use qpu_resource.Strings.{trim_space, contains_any}
use qpu_resource.Decimal.{format_int}
use qpu_resource.Errors.{Error, Failure, errorf, wrapf, failed, Result, ok, err}
use qpu_resource.Availability.{
  AvailabilityConfig, apply_defaults, choose_provider, Provider, Status, status_of, unavailable,
  Answer, Surroundings, provider_status,
}

-- `resolveConfigPath`: the option, the variable `QRMI_OCS_LOAD_SENSOR_CONFIG`, or the default.
unfoldable pub resolve_config_path : Text → Text → Text
unfolding trim_space
resolve_config_path option variable =
    if not (is_nil (trim_space option))
    then trim_space option
    else if not (is_nil (trim_space variable))
    then trim_space variable
    else codes "/etc/qrmi-ocs-load-sensor.yaml"

unfoldable pub valid_protocol_field : Text → Bool
unfolding contains_any
valid_protocol_field value = not (is_nil value) && not (contains_any (codes ": \t\r\n") value)

abbrev pub valid_or : Text → Text → Text
valid_or value default = if valid_protocol_field value then value else default

pub record Fields : Type 0 where
  pub scope : Text
  pub resource_name : Text
  pub slots_resource_name : Text

unfoldable pub protocol_fields : AvailabilityConfig → Fields
unfolding valid_protocol_field
protocol_fields c = record {
  scope = valid_or c.load_sensor.scope (codes "global");
  resource_name = valid_or c.load_sensor.resource_name (codes "qpu_ready");
  slots_resource_name = valid_or c.load_sensor.slots_resource_name [];
}

abbrev pub natural : Option ℤ → ℤ
natural none = pos 0
natural (some (pos n)) = pos n
natural (some (negsuc n)) = pos 0

abbrev pub report_line : Text → Text → Text → Text
report_line scope name value = scope ++ (b':' ∷ (name ++ (b':' ∷ (value ++ (b'\n' ∷ [])))))

-- The calls of `Fprintf` of `writeReport`.
unfoldable pub report_parts : Fields → Status → List Text
unfolding format_int
report_parts f status =
    (codes "begin\n"
      ++ report_line f.scope f.resource_name (if status.ready then codes "1" else codes "0"))
    ∷ (if is_nil f.slots_resource_name
        then codes "end\n" ∷ []
        else report_line f.scope f.slots_resource_name (format_int (natural status.slots_available))
          ∷ codes "end\n"
          ∷ [])

-- Where a write may fail, by what was written before.
abbrev pub Writer : Type 0
Writer = Text → Text → Option Failure

-- The error or nil, and what was written.
abbrev pub Written : Type 0
Written = Option Error × Text

abbrev pub unless_failed : Option Failure → Text → Written → Written
unless_failed none out rest = rest
unless_failed (some x) out rest = (some (failed x), out)

unfoldable pub write_all : Writer → List Text → Text → Written
write_all w [] out = (none, out)
write_all w (part ∷ parts) out =
    let rest = write_all w parts (out ++ part) in unless_failed (w out part) out rest

-- `writeReport`.
unfoldable pub write_report : Writer → Fields → Status → Text → Written
unfolding write_all report_parts
write_report w f status out = write_all w (report_parts f status) out

-- An error of the provider is reported as not ready.
abbrev pub reported : Answer → Status
reported (status, none) = status
reported (status, some e) = status_of false "provider error"

abbrev pub is_quit : Text → Bool
is_quit line = text_eq (trim_space line) (codes "quit")

abbrev pub go_on : Written → Written → Written
go_on (none, out) next = next
go_on (some e, out) next = (some e, out)

-- The loop of `runProtocol`: the provider's answer may change from cycle to cycle. The log on the
-- error output is not modelled.
unfoldable pub run_protocol :
    Writer → (ℕ → Answer) → Fields → ℕ → Option Error → List Text → Text → Written
unfolding trim_space text_eq
run_protocol w provider f n read_error [] out = (read_error, out)
run_protocol w provider f n read_error (line ∷ lines) out =
    let r = write_report w f (reported (provider n)) out in
    let next = run_protocol w provider f (suc n) read_error lines r.1 in
    if is_quit line then (none, out) else go_on r next

-- The provider of `run`, from the loaded configuration and the error of loading it.
unfoldable pub sensor_provider : AvailabilityConfig → Option Error → Result Provider
unfolding apply_defaults choose_provider
sensor_provider c config_error =
    if not c.load_sensor.enabled
    then err (errorf "load sensor is disabled" [])
    else elim config_error [
      | some e ↦ err (wrapf "load config: %w" [] e)
      | none ↦ choose_provider (apply_defaults c)
    ]

-- With the `failedProvider` where there is none.
unfoldable pub sensor_answer : Result Provider → Surroundings → Answer
sensor_answer (ok p) w = provider_status w p
sensor_answer (err e) w = unavailable "startup failure" e

-- `run` after its arguments are parsed: the lines are those of the input.
unfoldable pub run_sensor :
    Writer
    → AvailabilityConfig
    → Option Error
    → (ℕ → Surroundings)
    → Option Error
    → List Text
    → Written
unfolding sensor_provider sensor_answer protocol_fields run_protocol
run_sensor w c config_error surroundings read_error lines =
    run_protocol w (λ n. sensor_answer (sensor_provider c config_error) (surroundings n))
      (protocol_fields (apply_defaults c)) 0 read_error lines []
