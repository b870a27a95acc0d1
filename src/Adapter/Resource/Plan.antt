-- ===== src/Adapter/Resource/Plan.antt =====
-- What src/cmd/gridware-adapter/main.go promises of the scheduler's configuration, apart from how it
-- gets there: a list of obligations, the configurations that fulfil them, and the changes of a
-- configuration that an unfulfilled obligation allows.
pub mod Fulfil
pub mod Values
pub mod Entries
pub mod Sensor
pub mod Stays
pub mod Reaches
pub mod Agree
pub mod Setup
pub mod Again
pub mod Frame
pub mod Places
use qpu_resource.Prelude.{
  Bool, true, ◌&&◌, List, [], ◌∷◌, ◌++◌, ◌≡◌, ◌⊎◌, Option, none, some, Text, codes, text_eq,
  if◌then◌else◌, All, Any,
}
use qpu_resource.Prelude.Int.{is_positive}
use qpu_resource.Decimal.{format_int}
use qpu_resource.Dict.{lookup, value_of}
use qpu_resource.Adapter.{with_load_sensor}
use qpu_resource.Adapter.Options.{ResourceOptions, global_host}
use qpu_resource.Adapter.QConf.{
  ComplexEntry, ExecHost, HostConfiguration, Configuration, QConf, put,
}
use qpu_resource.Adapter.Resource.{
  qpu_name, qpu_complex_entry, qpu_slots_complex_entry, qpu_ready_complex_entry,
  complex_entry_matches, with_value, without_value, with_sensor, new_host_configuration,
}

pub data Obligation : Type 0 where
  has_entry : ComplexEntry → Obligation
  has_value : Text → Text → Text → Obligation
  lacks_value : Text → Text → Obligation
  runs_sensor : Text → Text → Obligation

abbrev pub only_if : Bool → List Obligation → List Obligation
only_if b obligations = if b then obligations else []

module _ (o : ResourceOptions) where
  abbrev pub slots_obligation : Text → Obligation
  slots_obligation host =
      if is_positive o.slots_capacity
      then has_value host o.slots_name (format_int o.slots_capacity)
      else lacks_value host o.slots_name

  abbrev pub host_obligations : Text → List Text → List Obligation
  host_obligations value [] = []
  host_obligations value (host ∷ hosts) =
      (has_value host qpu_name value ∷ [])
      ++ (only_if (o.enable_slots && text_eq o.slots_scope (codes "host"))
            (slots_obligation host ∷ [])
          ++ host_obligations value hosts)

  abbrev pub sensor_obligations : List Obligation
  sensor_obligations =
      (has_entry (qpu_ready_complex_entry o.ready_name) ∷ [])
      ++ ((has_value global_host o.ready_name (codes "1") ∷ [])
          ++ (runs_sensor o.load_sensor_host o.load_sensor_path ∷ []))

  -- All that a run with these options, hosts and value has to establish.
  abbrev pub plan : List Text → Text → List Obligation
  plan hosts value =
      (has_entry qpu_complex_entry ∷ [])
      ++ (only_if o.enable_slots (has_entry (qpu_slots_complex_entry o.slots_name) ∷ [])
          ++ (only_if o.enable_load_sensor sensor_obligations
              ++ (only_if (o.enable_slots && text_eq o.slots_scope global_host)
                    (slots_obligation global_host ∷ [])
                  ++ host_obligations value hosts)))

module _ (qc : QConf) where
  open qc use {Rest}

  abbrev pub Holds : Obligation → Configuration Rest → Type 0
  Holds (has_entry d) c =
      (e : ComplexEntry) × (c.complex_entry d.name ≡ some e) × (complex_entry_matches e d ≡ true)
  Holds (has_value host k v) c =
      (h : ExecHost Rest) × (c.exec_host host ≡ some h) × (value_of k h.complex_values ≡ v)
  Holds (lacks_value host k) c =
      (h : ExecHost Rest) × (c.exec_host host ≡ some h) × (lookup k h.complex_values ≡ none)
  Holds (runs_sensor host path) c =
      (h : HostConfiguration Rest) × (c.host_configuration host ≡ some h)
      × (with_load_sensor h.load_sensors path ≡ h.load_sensors)

  -- The host configuration that replaces another, or none.
  abbrev pub sensor_configuration :
      Text → Text → Option (HostConfiguration Rest) → HostConfiguration Rest
  sensor_configuration host path none = new_host_configuration qc host path
  sensor_configuration host path (some h) = with_sensor qc host path h

  -- The change that fulfils an obligation: of one entry, one value or one list of sensors.
  abbrev pub Changes : Obligation → Configuration Rest → Configuration Rest → Type 0
  Changes (has_entry d) c c' =
      (e : ComplexEntry) × (complex_entry_matches e d ≡ true)
      × (c' ≡ record c { complex_entry = put d.name e c.complex_entry })
  Changes (has_value host k v) c c' =
      (h : ExecHost Rest) × (c.exec_host host ≡ some h)
      × (c' ≡ record c { exec_host = put host (with_value qc host k v h) c.exec_host })
  Changes (lacks_value host k) c c' =
      (h : ExecHost Rest) × (c.exec_host host ≡ some h)
      × (c' ≡ record c { exec_host = put host (without_value qc host k h) c.exec_host })
  Changes (runs_sensor host path) c c' = c' ≡ record c {
    host_configuration =
        put host (sensor_configuration host path (c.host_configuration host)) c.host_configuration;
  }

  module _ (obligations : List Obligation) where
    abbrev pub IsConfigured : Configuration Rest → Type 0
    IsConfigured c = All (λ ob. Holds ob c) obligations

    -- One change, for an obligation of the list that does not hold yet.
    pub data Step : Configuration Rest → Configuration Rest → Type 0 where
      change :
          {c c' : Configuration Rest} (ob : Obligation)
          → Any (λ x. x ≡ ob) obligations
          → ¬ Holds ob c
          → Changes ob c c'
          → Step c c'

    pub data Reach (c : Configuration Rest) : Configuration Rest → Type 0 where
      here : Reach c c
      next : {c' c'' : Configuration Rest} → Reach c c' → Step c' c'' → Reach c c''
