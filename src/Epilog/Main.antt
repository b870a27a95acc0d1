-- ===== src/Epilog/Main.antt =====
-- `main` and `parseHookArgs` of src/cmd/qrmi-ocs-epilog-go/main.go.
use qpu_resource.Prelude.{
  ℕ, Bool, false, List, [], ◌∷◌, Option, none, some, Text, codes, text_eq, if◌then◌else◌,
}
use qpu_resource.Dict.{Dict}
use qpu_resource.Errors.{errorf, Result, ok, err, ◌>>=◌, exit_code, exit_host_error}
use qpu_resource.Flags.{FlagSet, parse}
use qpu_resource.Qrmiocs.Sanitize.{reset_process_env}
use qpu_resource.Hooks.{System, History}
use qpu_resource.Epilog.Release.{EpilogConfig}
use qpu_resource.Epilog.Run.{run}

abbrev pub default_epilog_config : EpilogConfig
default_epilog_config = record {
  config_path = codes "/etc/qrmi/qrmi_config.json";
  log_level = [];
  job_owner = [];
}

unfoldable pub set_epilog_flag : Text → Text → EpilogConfig → Option EpilogConfig
unfolding text_eq
set_epilog_flag name value c =
    if text_eq name (codes "config")
    then some (record c { config_path = value })
    else if text_eq name (codes "log-level")
    then some (record c { log_level = value })
    else none

abbrev is_text : {A : Type 0} → Option A → Option Bool
is_text none = none
is_text (some _) = some false

abbrev pub epilog_flags : FlagSet EpilogConfig
epilog_flags = record {
  is_bool = λ name. is_text (set_epilog_flag name [] default_epilog_config);
  set = set_epilog_flag;
}

abbrev pub with_owner : EpilogConfig × List Text → Result EpilogConfig
with_owner (c, []) = ok (record c { job_owner = [] })
with_owner (c, owner ∷ []) = ok (record c { job_owner = owner })
with_owner (c, owner ∷ more ∷ args) = err (errorf "expected at most one job-owner argument" [])

unfoldable pub parse_epilog_args : List Text → Result EpilogConfig
unfolding set_epilog_flag parse
parse_epilog_args args = do
  parsed ← parse epilog_flags default_epilog_config args
  with_owner parsed

module _ (order : Dict Text → Dict Text) (s : System) where
  -- `run` always gives a code.
  abbrev pub code_of : Result ℕ → ℕ
  code_of (ok code) = code
  code_of (err e) = exit_host_error

  abbrev pub run_parsed : Dict Text → Result EpilogConfig → ℕ × History
  run_parsed env (err e) = (exit_host_error, [])
  run_parsed env (ok cfg) =
      let (r, p) = run s cfg (record { env = env; history = []; writer_error = none }) in
      (code_of r, p.history)

  abbrev pub run_reset : List Text → Result (Dict Text) → ℕ × History
  run_reset args (err e) = (exit_code (some e), [])
  run_reset args (ok env) = run_parsed env (parse_epilog_args args)

  unfoldable pub epilog_main : List Text → List Text → ℕ × History
  unfolding reset_process_env parse_epilog_args exit_code
  epilog_main environ args = run_reset args (reset_process_env order s.machine environ)
