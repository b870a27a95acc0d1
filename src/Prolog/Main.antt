-- ===== src/Prolog/Main.antt =====
-- `main` and `parseHookArgs` of src/cmd/qrmi-ocs-prolog-go/main.go.
pub mod Exit
use qpu_resource.Prelude.{
  ℕ, Bool, false, not, ◌&&◌, List, [], ◌∷◌, Option, none, some, Text, codes, text_eq, if◌then◌else◌,
  is_nil,
}
use qpu_resource.FilePath.{is_abs}
use qpu_resource.Dict.{Dict}
use qpu_resource.Errors.{
  Error, errorf, Result, ok, err, ◌>>=◌, ◌>>◌, guard, exit_code, exit_host_error,
}
use qpu_resource.Flags.{FlagSet, parse}
use qpu_resource.Qrmiocs.Sanitize.{reset_process_env}
use qpu_resource.Hooks.{System, Process, History}
use qpu_resource.Prolog.Request.{Float64}
use qpu_resource.Prolog.Scheduler.{HookConfig}
use qpu_resource.Prolog.Run.{run_with_config}

unfoldable pub default_hook_config : HookConfig
default_hook_config = record {
  config_path = codes "/etc/qrmi/qrmi_config.json";
  resource_name = codes "qpu";
  slots_resource_name = codes "qpu_slots";
  qstat_path = [];
  log_level = [];
}

-- Five flags, each with a text.
unfoldable pub set_hook_flag : Text → Text → HookConfig → Option HookConfig
unfolding text_eq
set_hook_flag name value c =
    if text_eq name (codes "config")
    then some (record c { config_path = value })
    else if text_eq name (codes "resource")
    then some (record c { resource_name = value })
    else if text_eq name (codes "slots-resource")
    then some (record c { slots_resource_name = value })
    else if text_eq name (codes "qstat")
    then some (record c { qstat_path = value })
    else if text_eq name (codes "log-level")
    then some (record c { log_level = value })
    else none

abbrev is_text : {A : Type 0} → Option A → Option Bool
is_text none = none
is_text (some _) = some false

abbrev pub hook_flags : FlagSet HookConfig
hook_flags = record {
  is_bool = λ name. is_text (set_hook_flag name [] default_hook_config);
  set = set_hook_flag;
}

-- The job's owner: no argument, or one.
abbrev pub owner_of : HookConfig × List Text → Result (HookConfig × Text)
owner_of (c, []) = ok (c, [])
owner_of (c, owner ∷ []) = ok (c, owner)
owner_of (c, owner ∷ more ∷ args) = err (errorf "expected at most one job-owner argument" [])

abbrev pub checked_config : HookConfig × Text → Result (HookConfig × Text)
checked_config (c, owner) = do
  guard (not (is_nil c.config_path) && not (is_nil c.resource_name) && is_abs c.qstat_path)
      (errorf "config, resource, and absolute qstat path are required" [])
  ok (c, owner)

unfoldable pub parse_hook_args : List Text → Result (HookConfig × Text)
unfolding default_hook_config set_hook_flag parse
parse_hook_args args = do
  parsed ← parse hook_flags default_hook_config args
  owned ← owner_of parsed
  checked_config owned

abbrev pub failure_of : Result (Unit {0}) → Option Error
failure_of (ok _) = none
failure_of (err e) = some e

module _ (order : Dict Text → Dict Text) (s : System) (fl : Float64) where
  abbrev pub process_of : Dict Text → Process
  process_of env = record { env = env; history = []; writer_error = none }

  -- The exit code, and the calls that were made.
  abbrev pub run_parsed : Dict Text → Result (HookConfig × Text) → ℕ × History
  run_parsed env (err e) = (exit_host_error, [])
  run_parsed env (ok (cfg, owner)) =
      let (r, p) = run_with_config s fl cfg owner (process_of env) in
      (exit_code (failure_of r), p.history)

  abbrev pub run_reset : List Text → Result (Dict Text) → ℕ × History
  run_reset args (err e) = (exit_code (some e), [])
  run_reset args (ok env) = run_parsed env (parse_hook_args args)

  unfoldable pub prolog_main : List Text → List Text → ℕ × History
  unfolding reset_process_env parse_hook_args exit_code
  prolog_main environ args = run_reset args (reset_process_env order s.machine environ)
