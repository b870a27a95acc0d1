-- ===== src/Checks/Commands.antt =====
-- The adapter's command lines at concrete inputs: src/cmd/gridware-adapter/main.go.
use qpu_resource.Prelude.{
  Bool, true, false, List, [], ◌∷◌, ◌≡◌, refl, ap, none, some, Text, codes, arith,
}
use mathlib.Core.Path.{subst}
use qpu_resource.Prelude.Int.{pos}
use qpu_resource.Errors.{ok, Reply, done, fails}
use qpu_resource.Adapter.Options.{ResourceOptions, resource_options_from_flags}
use qpu_resource.Adapter.HookOptions.{Surroundings, queue_hook_options_from_flags}
use qpu_resource.Adapter.Action.{◌>>=◌}
use qpu_resource.Adapter.Resource.{
  ensure_resource_default, ensure_complex_entry, set_exec_host_resource, ensure_slots, ensure_hosts,
  qpu_complex_entry, qpu_slots_complex_entry,
}
use qpu_resource.Adapter.QueueHooks.{
  launcher_words, launcher_settings, host_roots, spool_roots, launcher_path,
  ensure_global_reporting_pattern, configure_queue_hook_paths, configure_queue_hooks_default,
}
use qpu_resource.Adapter.QConf.{ExecHost, ClusterQueue, GlobalConfiguration, IsFaithful}
use qpu_resource.Adapter.Resource.Plan.Agree.{HasDistinctNames}
use qpu_resource.Adapter.Flags.{CommandFlags}
use qpu_resource.Adapter.Requests.{setup_request}
use qpu_resource.Adapter.Commands.{Client, adapter_run, run_setup_qrmi_support, adapter_main}
use qpu_resource.Adapter.Commands.Support.{MakesFaithful, Supports, adapter_main-Supports}
use qpu_resource.Checks.Cluster.{Store, client, client-IsFaithful}

abbrev w1_host : ExecHost (Unit {0})
w1_host = record { name = codes "w1"; complex_values = []; rest = tt }

abbrev all_q : ClusterQueue (Unit {0})
all_q = record {
  name = codes "all.q";
  prolog = codes "NONE" ∷ [];
  epilog = codes "NONE" ∷ [];
  rest = tt;
}

abbrev global : GlobalConfiguration (Unit {0})
global = record { execd_spool_dir = codes "/s"; reporting_params = []; rest = tt }

abbrev start : Store
start = record {
  stored = record {
    complex_entry = λ k. none;
    exec_host = λ k. some w1_host;
    host_configuration = λ k. none;
    cluster_queue = λ k. some all_q;
    global_configuration = some global;
  };
  of_w1 = some (record { name = codes "w1"; load_sensors = []; execd_spool_dir = none; rest = tt });
}

abbrev new_client : Text → Bool → Reply Client
new_client path dry_run = done (record { qconf = client; start = start })

abbrev made_of : Reply Client → Client
made_of (done c) = c
made_of (fails x) = record { qconf = client; start = start }

makes_faithful : MakesFaithful new_client
makes_faithful path c made = subst (λ d. IsFaithful d.qconf) (ap made_of made) client-IsFaithful

abbrev surroundings : Surroundings
surroundings = record {
  env = (codes "SGE_ROOT", codes "/o") ∷ [];
  look_path = λ name. done name;
  abs = λ path. done path;
  read_file = λ path. done (codes "admin_user sge\n");
}

abbrev args : List Text
args =
    codes "--hosts"
    ∷ codes "w1"
    ∷ codes "-host-value=EMU"
    ∷ codes "--enable-qpu-slots"
    ∷ codes "--qpu-slots-capacity"
    ∷ codes "0x2"
    ∷ codes "--qstat=/b/qstat"
    ∷ codes "--queue"
    ∷ codes "all.q"
    ∷ codes "--prolog=/h/prolog"
    ∷ codes "--epilog=/h/epilog"
    ∷ []

abbrev resource : ResourceOptions
resource = record {
  enable_slots = true;
  slots_name = codes "qpu_slots";
  slots_capacity = pos 2;
  slots_scope = codes "host";
  enable_load_sensor = false;
  ready_name = codes "qpu_ready";
  load_sensor_host = [];
  load_sensor_path = [];
}

abbrev flags : CommandFlags
flags = record {
  qconf = codes "qconf";
  dry_run = false;
  hosts = codes "w1";
  host_value = codes "EMU";
  resource = resource;
  hooks = record {
    config_path = codes "/etc/qrmi/qrmi_config.json";
    resource_name = codes "qpu";
    slots_resource_name = codes "qpu_slots";
    qstat_path = codes "/b/qstat";
    hook_user = [];
    log_level = [];
    launcher = [];
  };
  queue = codes "all.q";
  prolog = codes "/h/prolog";
  epilog = codes "/h/epilog";
}

request : setup_request args ≡ ok (flags, codes "EMU")
unfolding setup_request
request = refl

options : resource_options_from_flags resource ≡ ok resource
unfolding resource_options_from_flags
options = refl

names : HasDistinctNames resource
names = record {
  slots_qpu = λ e. ground arith;
  ready_qpu = λ e. ground arith;
  slots_ready = λ e. ground arith;
}

exits :
    adapter_main new_client surroundings (codes "adapter" ∷ codes "setup-qrmi-support" ∷ args) ≡ 0
unfolding adapter_main adapter_run run_setup_qrmi_support ◌>>=◌ resource_options_from_flags
    ensure_resource_default ensure_complex_entry qpu_complex_entry qpu_slots_complex_entry
    ensure_hosts set_exec_host_resource ensure_slots queue_hook_options_from_flags
    configure_queue_hooks_default configure_queue_hook_paths launcher_settings launcher_words
    launcher_path spool_roots host_roots ensure_global_reporting_pattern
exits = refl

adapter_main-Supports_example :
    Supports new_client surroundings makes_faithful args flags (codes "EMU") resource
adapter_main-Supports_example =
    adapter_main-Supports new_client surroundings makes_faithful args flags (codes "EMU") resource
      (codes "adapter") request refl options names exits
