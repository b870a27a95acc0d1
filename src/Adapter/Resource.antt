-- ===== src/Adapter/Resource.antt =====
-- src/cmd/gridware-adapter/main.go: the resource's complex entries, the values of the execution
-- hosts and the load sensor. The lines that it prints on its progress are not modelled.
pub mod Plan
use qpu_resource.Prelude.{
  Bool, true, false, not, ◌&&◌, List, [], ◌∷◌, Text, codes, text_eq, texts_eq, if◌then◌else◌, none,
}
use qpu_resource.Prelude.Int.{ℤ, pos, is_positive, int_eq}
use qpu_resource.Strings.{equal_fold, is_some}
use qpu_resource.Decimal.{format_int}
use qpu_resource.Dict.{lookup, insert, erase, value_of}
use qpu_resource.Errors.{Error, errorf, wrapf, Result, ok, err}
use qpu_resource.Adapter.{with_load_sensor}
use qpu_resource.Adapter.Options.{ResourceOptions, global_host}
use qpu_resource.Adapter.QConf.{ComplexEntry, ExecHost, HostConfiguration, QConf}
use qpu_resource.Adapter.Action.{Action, pure, raise, call, wrapping, attempt, ◌>>=◌, ◌>>◌, when}

abbrev pub qpu_name : Text
qpu_name = codes "qpu"

-- `qpuComplexEntry`, `qpuSlotsComplexEntry`, `qpuReadyComplexEntry`. The names of types and of
-- consumption are constants of the client library, which are the scheduler's words.
unfoldable pub qpu_complex_entry : ComplexEntry
qpu_complex_entry = record {
  name = qpu_name;
  shortcut = qpu_name;
  kind = codes "STRING";
  relop = codes "==";
  requestable = codes "YES";
  consumable = codes "NO";
  default = codes "NONE";
  urgency = pos 1000;
}

unfoldable pub qpu_slots_complex_entry : Text → ComplexEntry
qpu_slots_complex_entry name = record {
  name = name;
  shortcut = name;
  kind = codes "INT";
  relop = codes "<=";
  requestable = codes "YES";
  consumable = codes "JOB";
  default = codes "0";
  urgency = pos 0;
}

unfoldable pub qpu_ready_complex_entry : Text → ComplexEntry
qpu_ready_complex_entry name = record {
  name = name;
  shortcut = name;
  kind = codes "INT";
  relop = codes "<=";
  requestable = codes "YES";
  consumable = codes "NO";
  default = codes "0";
  urgency = pos 0;
}

unfoldable pub complex_entry_matches : ComplexEntry → ComplexEntry → Bool
unfolding text_eq equal_fold
complex_entry_matches current desired =
    text_eq current.shortcut desired.shortcut
    && text_eq current.kind desired.kind
    && text_eq current.relop desired.relop
    && equal_fold current.requestable desired.requestable
    && equal_fold current.consumable desired.consumable
    && text_eq current.default desired.default
    && int_eq current.urgency desired.urgency

-- The current entry takes all but its name from the desired one.
abbrev pub entry_of : ComplexEntry → ComplexEntry → ComplexEntry
entry_of current desired = record desired { name = current.name }

module _ (qc : QConf) where
  open qc use {State, Rest}

  abbrev pub change_complex_entry : ComplexEntry → Result ComplexEntry → Action State Bool
  change_complex_entry desired (err e) = do
    wrapping
        (wrapf "add complex entry %q: %w (original show error: %v)"
          (desired.name ∷ qc.error_text e ∷ []))
        (call (qc.add_complex_entry desired))
    pure true
  change_complex_entry desired (ok current) =
      if complex_entry_matches current desired then pure false else do
        wrapping (wrapf "modify complex entry %q: %w" (desired.name ∷ []))
            (call (qc.modify_complex_entry desired.name (entry_of current desired)))
        pure true

  -- `ensureComplexEntry`.
  unfoldable pub ensure_complex_entry : ComplexEntry → Action State Bool
  unfolding complex_entry_matches
  ensure_complex_entry desired = do
    shown ← attempt (call (qc.show_complex_entry desired.name))
    change_complex_entry desired shown

  abbrev pub with_value : Text → Text → Text → ExecHost Rest → ExecHost Rest
  with_value host k v cfg = record cfg {
    name = host;
    complex_values = insert k v cfg.complex_values;
  }

  abbrev pub without_value : Text → Text → ExecHost Rest → ExecHost Rest
  without_value host k cfg = record cfg { name = host; complex_values = erase k cfg.complex_values }

  abbrev pub show_exec_host : Text → Action State (ExecHost Rest)
  show_exec_host host =
      wrapping (wrapf "show exechost %q: %w" (host ∷ [])) (call (qc.show_exec_host host))

  abbrev pub modify_exec_host : Text → ExecHost Rest → Action State (Unit {0})
  modify_exec_host host cfg =
      wrapping (wrapf "modify exechost %q: %w" (host ∷ [])) (call (qc.modify_exec_host host cfg))

  abbrev pub store_value : Text → Text → Text → ExecHost Rest → Action State (Unit {0})
  store_value host k v cfg =
      if text_eq (value_of k cfg.complex_values) v
      then pure tt
      else modify_exec_host host (with_value host k v cfg)

  -- `setExecHostResource`.
  unfoldable pub set_exec_host_resource : Text → Text → Text → Action State (Unit {0})
  unfolding text_eq value_of insert
  set_exec_host_resource host k v = do cfg ← show_exec_host host; store_value host k v cfg

  abbrev pub remove_value : Text → Text → ExecHost Rest → Action State (Unit {0})
  remove_value host k cfg =
      if is_some (lookup k cfg.complex_values)
      then modify_exec_host host (without_value host k cfg)
      else pure tt

  -- `clearExecHostResource`.
  unfoldable pub clear_exec_host_resource : Text → Text → Action State (Unit {0})
  unfolding lookup erase
  clear_exec_host_resource host k = do cfg ← show_exec_host host; remove_value host k cfg

  abbrev pub new_host_configuration : Text → Text → HostConfiguration Rest
  new_host_configuration host path = record {
    name = host;
    load_sensors = path ∷ [];
    execd_spool_dir = none;
    rest = qc.no_rest;
  }

  abbrev pub with_sensor : Text → Text → HostConfiguration Rest → HostConfiguration Rest
  with_sensor host path cfg = record cfg {
    name = host;
    load_sensors = with_load_sensor cfg.load_sensors path;
  }

  abbrev pub change_load_sensors :
      Text → Text → Result (HostConfiguration Rest) → Action State (Unit {0})
  change_load_sensors host path (err e) =
      wrapping
        (wrapf "add host configuration %q: %w (original show error: %v)"
          (host ∷ qc.error_text e ∷ []))
        (call (qc.add_host_configuration (new_host_configuration host path)))
  change_load_sensors host path (ok cfg) =
      if texts_eq (with_load_sensor cfg.load_sensors path) cfg.load_sensors
      then pure tt
      else wrapping (wrapf "modify host configuration %q: %w" (host ∷ []))
          (call (qc.modify_host_configuration host (with_sensor host path cfg)))

  -- `configureHostLoadSensor`.
  unfoldable pub configure_host_load_sensor : Text → Text → Action State (Unit {0})
  unfolding texts_eq with_load_sensor
  configure_host_load_sensor host path = do
    shown ← attempt (call (qc.show_host_configuration host))
    change_load_sensors host path shown

  module _ (o : ResourceOptions) where
    unfoldable pub ensure_load_sensor : Action State (Unit {0})
    ensure_load_sensor = do
      ensure_complex_entry (qpu_ready_complex_entry o.ready_name)
      set_exec_host_resource global_host o.ready_name (codes "1")
      configure_host_load_sensor o.load_sensor_host o.load_sensor_path

    -- The capacity on a host, or none.
    unfoldable pub ensure_slots : Text → Action State (Unit {0})
    unfolding format_int
    ensure_slots host =
        if is_positive o.slots_capacity
        then set_exec_host_resource host o.slots_name (format_int o.slots_capacity)
        else clear_exec_host_resource host o.slots_name

    -- The loop over the hosts.
    unfoldable pub ensure_hosts : Text → List Text → Action State (Unit {0})
    unfolding text_eq
    ensure_hosts value [] = pure tt
    ensure_hosts value (host ∷ hosts) = do
      set_exec_host_resource host qpu_name value
      when (o.enable_slots && text_eq o.slots_scope (codes "host")) (ensure_slots host)
      ensure_hosts value hosts

    -- `ensureResourceDefault`.
    unfoldable pub ensure_resource_default : List Text → Text → Action State (Unit {0})
    unfolding text_eq
    ensure_resource_default hosts value = do
      ensure_complex_entry qpu_complex_entry
      when o.enable_slots (ensure_complex_entry (qpu_slots_complex_entry o.slots_name) >> pure tt)
      when o.enable_load_sensor ensure_load_sensor
      when (o.enable_slots && text_eq o.slots_scope global_host) (ensure_slots global_host)
      ensure_hosts value hosts
