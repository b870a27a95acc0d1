-- ===== src/Qrmiocs/LaunchEnv/ExitCodes.antt =====
-- Which exit code the launcher's failure has.
use qpu_resource.Prelude.{List, [], ◌∷◌, ◌≡◌, arith, none, some, Text, ◌⊎◌}
use qpu_resource.Machine.{Machine}
use qpu_resource.Errors.{Error, err, hook_code, exit_code, exit_job_error, exit_host_error}
use qpu_resource.Qrmiocs.Sanitize.{check_loader_env}
use qpu_resource.Qrmiocs.LaunchEnv.{
  LaunchSettings, JobValues, job_values, validate, launch_values, launch_env, check_dirs,
  check_ports,
}

check_dirs-err : (ds : List Text) (e : Error) → check_dirs ds ≡ err e → hook_code e ≡ none
unfolding check_dirs hook_code
check_dirs-err [] e h = absurd (cc h)
check_dirs-err (d ∷ ds) e h = ground (arith, check_dirs-err ds e)

check_ports-err : (ps : List Text) (e : Error) → check_ports ps ≡ err e → hook_code e ≡ none
unfolding check_ports hook_code
check_ports-err [] e h = absurd (cc h)
check_ports-err (p ∷ ps) e h = ground (arith, check_ports-err ps e)

-- A wrong setting is no job error.
validate-err : (s : LaunchSettings) (e : Error) → validate s ≡ err e → hook_code e ≡ none
unfolding validate hook_code
validate-err s e h = ground (
  arith,
  check_dirs-err (s.sge_root ∷ s.spool_roots) e,
  check_ports-err (s.qmaster_port ∷ s.execd_port ∷ []) e,
)

check_loader_env-err :
    (environ : List Text) (e : Error)
    → check_loader_env environ ≡ err e
    → hook_code e ≡ some exit_job_error
unfolding check_loader_env hook_code
check_loader_env-err [] e h = absurd (cc h)
check_loader_env-err (kv ∷ environ) e h = ground (arith, check_loader_env-err environ e)

launch_values-err :
    (m : Machine) (s : LaunchSettings) (v : JobValues) (e : Error)
    → launch_values m s v ≡ err e
    → hook_code e ≡ some exit_job_error
unfolding launch_values hook_code
launch_values-err m s v e h = ground arith

-- A failed launch is the job's error (code 100), or the host's (code 1) with the error that the
-- validation of the launcher's own settings gives.
pub launch_env_exit :
    (m : Machine) (environ : List Text) (s : LaunchSettings) {e : Error}
    → launch_env m environ s ≡ err e
    → (exit_code (some e) ≡ exit_job_error)
      ⊎ (exit_code (some e) ≡ exit_host_error) × (validate s ≡ err e)
unfolding launch_env exit_code
launch_env_exit m environ s {e} h = ground (
  arith,
  check_loader_env-err environ e,
  validate-err s e,
  launch_values-err m s (job_values environ) e,
)
