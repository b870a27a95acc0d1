-- ===== src/Adapter/QueueHooks.antt =====
-- src/cmd/gridware-adapter/main.go: the commands of the queue hooks and the reporting of usage. The
-- lines that it prints on its progress are not modelled.
pub mod Roots
pub mod Gather
pub mod Settings
pub mod Stored
pub mod Hooked
pub mod Starts
pub mod Launches
pub mod HookArgs
use qpu_resource.Prelude.{
  not, ◌&&◌, List, [], ◌∷◌, ◌++◌, map, Option, none, some, Text, codes, if◌then◌else◌, is_nil,
  or_default, contains,
}
use qpu_resource.Strings.{trim_space}
use qpu_resource.FilePath.{is_abs, clean, dir, join_path}
use qpu_resource.Dict.{value_of}
use qpu_resource.Errors.{errorf, wrapf, Result, ok, or_fail, guard}
use qpu_resource.Errors as Errors
use qpu_resource.Adapter.{qrmi_queue_hook_command}
use qpu_resource.Adapter.HookOptions.{QueueHookOptions, Surroundings, cell}
use qpu_resource.Adapter.QConf.{ClusterQueue, GlobalConfiguration, QConf}
use qpu_resource.Adapter.Action.{Action, pure, raise, lift, call, wrapping, attempt, ◌>>=◌, ◌>>◌}

-- `add` in `spoolRoots`: a new absolute directory, in its shortest form.
unfoldable pub add_path : List Text → Text → List Text
unfolding contains
add_path roots path =
    if is_abs path && not (contains roots (clean path)) then roots ++ (clean path ∷ []) else roots

unfoldable pub add_root : List Text → Text → List Text
unfolding add_path clean trim_space
add_root roots dir = add_path roots (trim_space dir)

abbrev pub add_root_if : List Text → Option Text → List Text
add_root_if roots none = roots
add_root_if roots (some dir) = add_root roots dir

abbrev pub launcher_name : Text
launcher_name = codes "qrmi-ocs-launch"

abbrev pub option_of : Text → Text → Text
option_of name value = name ++ (b'=' ∷ value)

-- An option for a variable of the environment that is set.
abbrev pub port_option : Text → Text → List Text
port_option name value = if is_nil value then [] else option_of name value ∷ []

abbrev pub reporting_pattern : Text
reporting_pattern = codes "usage_patterns=qrmi:qrmi_*"

-- The options of the launcher for these roots.
unfoldable pub launcher_words : Surroundings → List Text → List Text
unfolding value_of clean cell
launcher_words w roots =
    option_of (codes "--sge-root") (clean (value_of (codes "SGE_ROOT") w.env))
    ∷ option_of (codes "--sge-cell") (cell w)
    ∷ (map (option_of (codes "--spool-root")) roots
        ++ (port_option (codes "--qmaster-port") (value_of (codes "SGE_QMASTER_PORT") w.env)
            ++ port_option (codes "--execd-port") (value_of (codes "SGE_EXECD_PORT") w.env)))

abbrev pub common_args : QueueHookOptions → List Text
common_args o =
    option_of (codes "--config") o.config_path
    ∷ (if is_nil o.log_level then [] else option_of (codes "--log-level") o.log_level ∷ [])

abbrev pub prolog_args : QueueHookOptions → List Text
prolog_args o =
    common_args o
    ++ (option_of (codes "--resource") o.resource_name
        ∷ option_of (codes "--slots-resource") o.slots_resource_name
        ∷ option_of (codes "--qstat") o.qstat_path
        ∷ [])

unfoldable pub launcher_path : Text → QueueHookOptions → Text
unfolding trim_space dir join_path
launcher_path prolog o = or_default o.launcher (join_path (dir (trim_space prolog)) launcher_name)

-- The two commands, for the launcher's options.
abbrev pub hook_commands : Text → Text → QueueHookOptions → List Text → Result (Text × Text)
hook_commands prolog epilog o words =
    Errors.◌>>=◌
      (or_fail
        (qrmi_queue_hook_command prolog (launcher_path prolog o) o.hook_user words (prolog_args o))
        (wrapf "invalid prolog: %w" []))
      (λ prolog_command.
        Errors.◌>>=◌
          (or_fail
            (qrmi_queue_hook_command epilog (launcher_path prolog o) o.hook_user words
              (common_args o))
            (wrapf "invalid epilog: %w" []))
          (λ epilog_command. ok (prolog_command, epilog_command)))

module _ (qc : QConf) where
  open qc use {State, Rest}

  abbrev pub global_root : Result (Option (GlobalConfiguration Rest)) → List Text
  global_root (ok (some g)) = add_root [] g.execd_spool_dir
  global_root _ = []

  -- The loop over the hosts.
  unfoldable pub host_roots : List Text → List Text → Action State (List Text)
  unfolding add_root
  host_roots roots [] = pure roots
  host_roots roots (host ∷ hosts) = do
    cfg ←
        wrapping (wrapf "show host configuration %q: %w" (host ∷ []))
          (call (qc.show_host_configuration host))
    host_roots (add_root_if roots cfg.execd_spool_dir) hosts

  unfoldable pub spool_roots : Action State (List Text)
  unfolding add_root
  spool_roots = do
    global ← attempt (call qc.show_global_configuration)
    hosts ← wrapping (wrapf "list host configurations: %w" []) (call qc.show_host_configurations)
    host_roots (global_root global) hosts

  -- `ensureGlobalReportingPattern`.
  abbrev pub with_pattern : GlobalConfiguration Rest → Text → GlobalConfiguration Rest
  with_pattern g pattern = record g { reporting_params = g.reporting_params ++ (pattern ∷ []) }

  abbrev pub add_pattern : Text → Option (GlobalConfiguration Rest) → Action State (Unit {0})
  add_pattern pattern none = raise (errorf "show global configuration returned nil" [])
  add_pattern pattern (some g) =
      if contains g.reporting_params pattern
      then pure tt
      else wrapping (wrapf "modify global reporting_params: %w" [])
          (call (qc.modify_global_config (with_pattern g pattern)))

  unfoldable pub ensure_global_reporting_pattern : Text → Action State (Unit {0})
  unfolding contains
  ensure_global_reporting_pattern pattern = do
    shown ← wrapping (wrapf "show global configuration: %w" []) (call qc.show_global_configuration)
    add_pattern pattern shown

  -- `queueCfg` with its hooks replaced.
  abbrev pub with_hooks : Text → Text → Text → ClusterQueue Rest → ClusterQueue Rest
  with_hooks queue prolog epilog cfg = record cfg {
    name = queue;
    prolog = prolog ∷ [];
    epilog = epilog ∷ [];
  }

  abbrev pub store_hooks : Text → Text × Text → Action State (Unit {0})
  store_hooks queue commands = do
    cfg ← wrapping (wrapf "show queue %q: %w" (queue ∷ [])) (call (qc.show_cluster_queue queue))
    wrapping (wrapf "modify queue %q hooks: %w" (queue ∷ []))
        (call (qc.modify_cluster_queue queue (with_hooks queue commands.0 commands.1 cfg)))

  module _ (w : Surroundings) where
    unfoldable pub launcher_settings : Action State (List Text)
    unfolding value_of
    launcher_settings = do
      lift (
          guard (is_abs (value_of (codes "SGE_ROOT") w.env)) (
            errorf "SGE_ROOT must be set to an absolute path; source the OCS settings file first"
              []))
      roots ← spool_roots
      pure (launcher_words w roots)

    unfoldable pub configure_queue_hook_paths :
        Text → Text → Text → QueueHookOptions → Action State (Unit {0})
    unfolding launcher_path qrmi_queue_hook_command
    configure_queue_hook_paths queue prolog epilog o = do
      words ← launcher_settings
      commands ← lift (hook_commands prolog epilog o words)
      store_hooks queue commands

    -- `configureQueueHooksDefault` and `configureGlobalQRMIReporting`.
    unfoldable pub configure_queue_hooks_default :
        Text → Text → Text → QueueHookOptions → Action State (Unit {0})
    configure_queue_hooks_default queue prolog epilog o = do
      configure_queue_hook_paths queue prolog epilog o
      ensure_global_reporting_pattern reporting_pattern
