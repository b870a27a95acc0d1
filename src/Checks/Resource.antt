-- ===== src/Checks/Resource.antt =====
-- The setup of the resource at concrete inputs: src/cmd/gridware-adapter/main.go.
use qpu_resource.Prelude.{List, [], ◌∷◌, ◌≡◌, refl, sym, arith, none, some, true, Text, codes}
use mathlib.Core.Path.{subst}
use qpu_resource.Prelude.Int.{pos}
use qpu_resource.Errors.{ok}
use qpu_resource.Adapter.QConf.{ExecHost, Configuration}
use qpu_resource.Adapter.Options.{ResourceOptions, resource_options_from_flags}
use qpu_resource.Adapter.Action.{◌>>=◌}
use qpu_resource.Adapter.Resource.{
  ensure_resource_default, ensure_complex_entry, set_exec_host_resource, configure_host_load_sensor,
  ensure_load_sensor, ensure_slots, ensure_hosts, qpu_complex_entry, qpu_slots_complex_entry,
  qpu_ready_complex_entry,
}
use qpu_resource.Adapter.Resource.Plan.{plan, Reach, IsConfigured}
use qpu_resource.Adapter.Resource.Plan.Agree.{HasDistinctNames}
use qpu_resource.Adapter.Resource.Plan.Again.{
  ensure_resource_default-Reach, ensure_resource_default-IsConfigured,
  ensure_resource_default-again,
}
use qpu_resource.Adapter.Resource.Plan.Fulfil.{IsOk}
use qpu_resource.Adapter.Resource.Plan.Frame.{LeavesAlone}
use qpu_resource.Adapter.Resource.Plan.Places.{ensure_resource_default-LeavesAlone}
use qpu_resource.Checks.Cluster.{Store, client, client-IsFaithful}

abbrev options : ResourceOptions
options = record {
  enable_slots = true;
  slots_name = codes "qpu_slots";
  slots_capacity = pos 2;
  slots_scope = codes "host";
  enable_load_sensor = true;
  ready_name = codes "qpu_ready";
  load_sensor_host = codes "w1";
  load_sensor_path = codes "/ls";
}

abbrev plain_host : Text → ExecHost (Unit {0})
plain_host name = record { name = name; complex_values = []; rest = tt }

abbrev start : Store
start = record {
  stored = record {
    complex_entry = λ k. none;
    exec_host = λ k. some (plain_host k);
    host_configuration = λ k. none;
    cluster_queue = λ k. none;
    global_configuration = none;
  };
  of_w1 = none;
}

abbrev targets : List Text
targets = codes "w1" ∷ []

abbrev backend : Text
backend = codes "EMU"

accepts_options : resource_options_from_flags options ≡ ok options
unfolding resource_options_from_flags
accepts_options = refl

succeeds : (ensure_resource_default client options targets backend start).0 ≡ ok tt
unfolding ensure_resource_default ensure_complex_entry set_exec_host_resource
    configure_host_load_sensor ensure_load_sensor ensure_slots ensure_hosts qpu_complex_entry
    qpu_slots_complex_entry qpu_ready_complex_entry ◌>>=◌
succeeds = refl

abbrev after : Store
after = (ensure_resource_default client options targets backend start).1

abbrev view : Store → Configuration (Unit {0})
view = client.view

names : HasDistinctNames options
names = record {
  slots_qpu = λ e. ground arith;
  ready_qpu = λ e. ground arith;
  slots_ready = λ e. ground arith;
}

done : IsOk (ensure_resource_default client options targets backend start).0
done = subst IsOk (sym succeeds) tt

ensure_resource_default-Reach_example :
    Reach client (plan options targets backend) (view start) (view after)
ensure_resource_default-Reach_example =
    ensure_resource_default-Reach client client-IsFaithful options targets backend start

ensure_resource_default-IsConfigured_example :
    IsConfigured client (plan options targets backend) (view after)
ensure_resource_default-IsConfigured_example =
    ensure_resource_default-IsConfigured client client-IsFaithful options targets backend names
      start done

ensure_resource_default-again_example :
    view (ensure_resource_default client options targets backend after).1 ≡ view after
ensure_resource_default-again_example =
    ensure_resource_default-again client client-IsFaithful options targets backend names start after
      done refl

ensure_resource_default-LeavesAlone_example :
    LeavesAlone client options targets (view start) (view after)
ensure_resource_default-LeavesAlone_example =
    ensure_resource_default-LeavesAlone client options targets client-IsFaithful backend start
