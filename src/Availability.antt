-- ===== src/Availability.antt =====
-- src/internal/availability: the configuration of the load sensor and the providers of the
-- availability. YAML, HTTP and JSON are not modelled: a decoded configuration and the outcome of a
-- request are inputs.
use qpu_resource.Prelude.{
  ℕ, Bool, true, false, ◌&&◌, [], ◌∷◌, Option, none, some, Text, String, codes, text_eq,
  if◌then◌else◌, is_nil, leb, ltb, or_default,
}
use qpu_resource.Prelude.Int.{ℤ, pos, is_neg, is_positive}
use qpu_resource.Strings.{trim_space}
use qpu_resource.Errors.{Error, Failure, errorf, failed, Result, ok, err, Reply, done, fails}

pub record LoadSensorConfig : Type 0 where
  pub enabled : Bool
  pub scope : Text
  pub resource_name : Text
  pub slots_resource_name : Text
  pub provider : Text
  pub timeout_seconds : ℤ

pub record WardenConfig : Type 0 where
  pub base_url : Text
  pub endpoint : Text
  pub tls_verify : Bool

pub record StaticConfig : Type 0 where
  pub ready : Bool
  pub state_file : Text

-- `Config`.
pub record AvailabilityConfig : Type 0 where
  pub load_sensor : LoadSensorConfig
  pub warden : WardenConfig
  pub static : StaticConfig

-- `ApplyDefaults`.
unfoldable pub apply_defaults : AvailabilityConfig → AvailabilityConfig
apply_defaults c = record {
  load_sensor = record c.load_sensor {
    scope = or_default c.load_sensor.scope (codes "global");
    resource_name = or_default c.load_sensor.resource_name (codes "qpu_ready");
    provider = or_default c.load_sensor.provider (codes "static");
    timeout_seconds =
        if is_positive c.load_sensor.timeout_seconds then c.load_sensor.timeout_seconds else pos 3;
  };
  warden = record c.warden {
    base_url = or_default c.warden.base_url (codes "http://127.0.0.1:8006");
    endpoint = or_default c.warden.endpoint (codes "/accessible");
  };
  static = c.static;
}

-- `AvailabilityStatus`.
pub record Status : Type 0 where
  pub ready : Bool
  pub reason : String
  pub slots_available : Option ℤ

pub data Provider : Type 0 where
  static_provider : StaticConfig → Provider
  warden_provider : WardenConfig → Provider

-- `Config.Provider`, without the timeout.
unfoldable pub choose_provider : AvailabilityConfig → Result Provider
unfolding text_eq
choose_provider c =
    if text_eq c.load_sensor.provider (codes "static")
    then ok (static_provider c.static)
    else if text_eq c.load_sensor.provider (codes "warden")
    then ok (warden_provider c.warden)
    else err (errorf "unknown availability provider %q" (c.load_sensor.provider ∷ []))

-- What `Status` returns: a status, and an error or nil.
abbrev pub Answer : Type 0
Answer = Status × Option Error

abbrev pub status_of : Bool → String → Status
status_of ready reason = record { ready = ready; reason = reason; slots_available = none }

abbrev pub unavailable : String → Error → Answer
unavailable reason e = (status_of false reason, some e)

-- The content of the state file, without blanks around it.
unfoldable pub state_answer : Text → Answer
unfolding text_eq
state_answer state =
    if text_eq state (codes "1")
    then (status_of true "state file ready", none)
    else if text_eq state (codes "0")
    then (status_of false "state file unavailable", none)
    else unavailable "state file malformed" (errorf "invalid state file value %q" (state ∷ []))

abbrev pub file_answer : Reply Text → Answer
file_answer (fails x) = unavailable "state file unavailable" (failed x)
file_answer (done raw) = state_answer (trim_space raw)

-- `StaticProvider.Status`, where the state file holds this.
unfoldable pub static_status : StaticConfig → Reply Text → Answer
unfolding trim_space state_answer
static_status p content =
    if is_nil (trim_space p.state_file)
    then (status_of p.ready "configured static state", none)
    else file_answer content

-- The body of a response: `decoded` holds the fields `is_accessible` and `qpu_slots_available`;
-- `trailing` is a body that something follows.
pub data WardenBody : Type 0 where
  malformed : Failure → WardenBody
  trailing : Failure → WardenBody
  decoded : Option Bool → Option ℤ → WardenBody

-- How a request ended.
pub data WardenReply : Type 0 where
  invalid_url : Failure → WardenReply
  no_response : Failure → WardenReply
  response : ℕ → WardenBody → WardenReply

abbrev pub is_negative : Option ℤ → Bool
is_negative none = false
is_negative (some n) = is_neg n

unfoldable pub body_status : WardenBody → Answer
body_status (malformed x) = unavailable "warden response malformed" (failed x)
body_status (trailing x) = unavailable "warden response malformed" (failed x)
body_status (decoded none slots) =
    unavailable "warden response missing is_accessible" (errorf "missing is_accessible" [])
body_status (decoded (some false) slots) = (
  record { ready = false; reason = "warden reports unavailable"; slots_available = some (pos 0) },
  none,
)
body_status (decoded (some true) slots) =
    if is_negative slots
    then unavailable "warden response has invalid slots" (errorf "negative qpu_slots_available" [])
    else (
      record { ready = true; reason = "warden reports accessible"; slots_available = slots },
      none,
    )

abbrev pub is_success : ℕ → Bool
is_success code = leb 200 code && ltb code 300

-- `WardenProvider.Status`.
unfoldable pub warden_status : WardenReply → Answer
unfolding body_status
warden_status (invalid_url x) = unavailable "invalid warden URL" (failed x)
warden_status (no_response x) = unavailable "warden request failed" (failed x)
warden_status (response code body) =
    if is_success code
    then body_status body
    else unavailable "warden returned HTTP error" (errorf "warden returned status %s" [])

-- The state files and the warden, at the time of a cycle.
pub record Surroundings : Type 0 where
  pub state_file : Text → Reply Text
  pub request : WardenConfig → WardenReply

unfoldable pub provider_status : Surroundings → Provider → Answer
unfolding static_status warden_status
provider_status w (static_provider p) = static_status p (w.state_file p.state_file)
provider_status w (warden_provider p) = warden_status (w.request p)
