-- ===== src/Checks/QueueHooks.antt =====
-- The setup of the queue hooks at concrete inputs: src/cmd/gridware-adapter/main.go.
use qpu_resource.Prelude.{[], ◌∷◌, ◌++◌, ◌≡◌, refl, none, some, codes, text_eq}
use qpu_resource.Strings.{trim_space}
use qpu_resource.Decimal.{is_number}
use qpu_resource.Dict.{value_of}
use qpu_resource.Errors.{ok, done}
use qpu_resource.Qrmiocs.Sanitize.{cell_pattern}
use qpu_resource.Adapter.QConf.{HostConfiguration, ClusterQueue, GlobalConfiguration}
use qpu_resource.Adapter.Action.{◌>>=◌}
use qpu_resource.Adapter.HookOptions.{
  QueueHookOptions, Surroundings, cell, queue_hook_options_from_flags,
}
use qpu_resource.Adapter.QueueHooks.{
  launcher_words, launcher_settings, host_roots, spool_roots, launcher_path,
  ensure_global_reporting_pattern, configure_queue_hook_paths, configure_queue_hooks_default,
}
use qpu_resource.Prolog.Main.{parse_hook_args}
use qpu_resource.Epilog.Main.{parse_epilog_args}
use qpu_resource.Adapter.QueueHooks.{prolog_args, common_args}
use qpu_resource.Adapter.QueueHooks.HookArgs.{
  hook_config_of, epilog_config_of, parse_hook_args-prolog_args,
}
use qpu_resource.Adapter.QueueHooks.Gather.{HoldsRoots, spool_roots-HoldsRoots}
use qpu_resource.Adapter.QueueHooks.Hooked.{IsHooked, configure_queue_hooks_default-IsHooked}
use qpu_resource.Adapter.QueueHooks.Launches.{
  HasForms, Launches, configure_queue_hooks_default-Launches,
}
use qpu_resource.Checks.Cluster.{Store, client, client-IsFaithful}

abbrev surroundings : Surroundings
surroundings = record {
  env = (codes "SGE_ROOT", codes "/o/") ∷ (codes "SGE_QMASTER_PORT", codes "6444") ∷ [];
  look_path = λ name. done name;
  abs = λ path. done path;
  read_file = λ path. done (codes "x y\n admin_user  none\n");
}

abbrev flags : QueueHookOptions
flags = record {
  config_path = codes "/c";
  resource_name = codes "qpu";
  slots_resource_name = codes "qpu_slots";
  qstat_path = codes " /b/qstat";
  hook_user = [];
  log_level = [];
  launcher = [];
}

abbrev options : QueueHookOptions
options = record flags { qstat_path = codes "/b/qstat"; hook_user = codes "root" }

names_the_account : queue_hook_options_from_flags surroundings flags ≡ ok options
unfolding queue_hook_options_from_flags
names_the_account = refl

abbrev own_dir : HostConfiguration (Unit {0})
own_dir = record {
  name = codes "w1";
  load_sensors = [];
  execd_spool_dir = some (codes "/w1//s");
  rest = tt;
}

abbrev all_q : ClusterQueue (Unit {0})
all_q = record {
  name = codes "all.q";
  prolog = codes "NONE" ∷ [];
  epilog = codes "NONE" ∷ [];
  rest = tt;
}

abbrev global : GlobalConfiguration (Unit {0})
global = record { execd_spool_dir = codes "/s"; reporting_params = codes "x" ∷ []; rest = tt }

abbrev start : Store
start = record {
  stored = record {
    complex_entry = λ k. none;
    exec_host = λ k. none;
    host_configuration = λ k. none;
    cluster_queue = λ k. some all_q;
    global_configuration = some global;
  };
  of_w1 = some own_dir;
}

gathers_roots : (spool_roots client start).0 ≡ ok (codes "/s" ∷ codes "/w1/s" ∷ [])
unfolding spool_roots host_roots ◌>>=◌
gathers_roots = refl

succeeds :
    (configure_queue_hooks_default client surroundings
      (codes "all.q")
      (codes "/h/prolog")
      (codes "/h/epilog")
      options
      start).0
    ≡ ok tt
unfolding configure_queue_hooks_default configure_queue_hook_paths launcher_settings launcher_words
    launcher_path ensure_global_reporting_pattern spool_roots host_roots ◌>>=◌
succeeds = refl

forms : HasForms surroundings
unfolding cell cell_pattern is_number value_of text_eq
forms = record { cell_form = refl; qmaster_form = refl; execd_form = refl }

spool_roots-HoldsRoots_example :
    (client.view (spool_roots client start).1 ≡ client.view start)
    × HoldsRoots client start (codes "/s" ∷ codes "/w1/s" ∷ [])
spool_roots-HoldsRoots_example = spool_roots-HoldsRoots client client-IsFaithful start gathers_roots

configure_queue_hooks_default-IsHooked_example :
    IsHooked client client-IsFaithful surroundings
      (codes "all.q")
      (codes "/h/prolog")
      (codes "/h/epilog")
      options
      start
      (client.view
        (configure_queue_hooks_default client surroundings
          (codes "all.q")
          (codes "/h/prolog")
          (codes "/h/epilog")
          options
          start).1)
configure_queue_hooks_default-IsHooked_example =
    configure_queue_hooks_default-IsHooked client client-IsFaithful surroundings (codes "all.q")
      (codes "/h/prolog") (codes "/h/epilog") options start succeeds

configure_queue_hooks_default-Launches_example :
    Launches client surroundings (codes "all.q") (codes "/h/prolog") (codes "/h/epilog") options (
      client.view
        (configure_queue_hooks_default client surroundings
          (codes "all.q")
          (codes "/h/prolog")
          (codes "/h/epilog")
          options
          start).1)
unfolding text_eq trim_space
configure_queue_hooks_default-Launches_example =
    configure_queue_hooks_default-Launches client surroundings (codes "all.q") (codes "/h/prolog")
      (codes "/h/epilog") options client-IsFaithful forms start refl refl succeeds

parse_hook_args-prolog_args_example :
    (parse_hook_args (prolog_args options ++ (codes "ada" ∷ []))
      ≡ ok (hook_config_of options, codes "ada"))
    × (parse_epilog_args (common_args options ++ (codes "ada" ∷ []))
        ≡ ok (epilog_config_of options (codes "ada")))
parse_hook_args-prolog_args_example =
    parse_hook_args-prolog_args options (codes "ada") refl refl refl refl
