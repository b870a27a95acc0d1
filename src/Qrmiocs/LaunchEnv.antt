-- ===== src/Qrmiocs/LaunchEnv.antt =====
-- `LaunchSettings` and `LaunchEnv` of src/internal/qrmiocs/sanitize.go.
pub mod Isolation
pub mod Loader
pub mod ExitCodes
pub mod Contents
use qpu_resource.Prelude.{
  ℕ, Bool, true, false, not, ◌&&◌, ◌||◌, List, [], ◌∷◌, ◌++◌, Option, none, some, Text, codes,
  text_eq, if◌then◌else◌, is_nil, all,
}
use qpu_resource.Strings.{cut, Cut, contains_text, cut_prefix}
use qpu_resource.Decimal.{is_number}
use qpu_resource.Dict.{Dict, insert, value_of}
use qpu_resource.FilePath.{is_abs, clean}
use qpu_resource.Machine.{Machine}
use qpu_resource.Errors.{Error, errorf, job_error, Result, ok, err, ◌>>=◌, ◌>>◌, guard, or_fail}
use qpu_resource.Qrmiocs.Sanitize.{
  assign, task_pattern, cell_pattern, tz_pattern, has_dotdot, check_loader_env, fixed_env,
  hook_user_home,
}
use qpu_resource.Qrmiocs.Spool.{check_spool_dir}

pub record LaunchSettings : Type 0 where
  pub sge_root : Text
  pub sge_cell : Text
  pub spool_roots : List Text
  pub qmaster_port : Text
  pub execd_port : Text

unfoldable pub check_dirs : List Text → Result (Unit {0})
unfolding clean text_eq
check_dirs [] = ok tt
check_dirs (d ∷ ds) = do
  guard (is_abs d && text_eq (clean d) d) (errorf "invalid directory %q" (d ∷ []))
  check_dirs ds

unfoldable pub check_ports : List Text → Result (Unit {0})
unfolding is_number
check_ports [] = ok tt
check_ports (port ∷ ports) = do
  guard (is_nil port || is_number port) (errorf "invalid port %q" (port ∷ []))
  check_ports ports

unfoldable pub validate : LaunchSettings → Result (Unit {0})
unfolding cell_pattern check_dirs check_ports
validate s = do
  guard (not (is_nil s.sge_root) && cell_pattern s.sge_cell)
      (errorf "--sge-root and --sge-cell are required" [])
  check_dirs (s.sge_root ∷ s.spool_roots)
  check_ports (s.qmaster_port ∷ s.execd_port ∷ [])

-- The map `values`: a later entry replaces an earlier one; an entry without `=` is passed over.
unfoldable pub env_values : List Text → Dict Text → Dict Text
unfolding cut insert
env_values [] values = values
env_values (kv ∷ environ) values =
    let r = cut b'=' kv in
    env_values environ (if r.found then insert r.before r.after values else values)

abbrev pub spool_roots_or_root : LaunchSettings → List Text
spool_roots_or_root s = if is_nil s.spool_roots then s.sge_root ∷ [] else s.spool_roots

abbrev pub error_or_ok : Option Error → Result (Unit {0})
error_or_ok none = ok tt
error_or_ok (some e) = err e

-- An optional variable.
abbrev pub if_set : Text → Text → List Text
if_set key value = if is_nil value then [] else assign key value ∷ []

unfoldable pub time_zone : Text → List Text
unfolding tz_pattern contains_text cut_prefix
time_zone tz = if tz_pattern tz && not (has_dotdot tz) then assign (codes "TZ") tz ∷ [] else []

-- What the launcher takes from the job's environment.
pub record JobValues : Type 0 where
  pub job_id : Text
  pub task_id : Text
  pub spool : Text
  pub tz : Text

unfoldable pub job_values : List Text → JobValues
unfolding env_values value_of
job_values environ =
    let values = env_values environ [] in
    record {
      job_id = value_of (codes "JOB_ID") values;
      task_id = value_of (codes "SGE_TASK_ID") values;
      spool = value_of (codes "SGE_JOB_SPOOL_DIR") values;
      tz = value_of (codes "TZ") values;
    }

module _ (m : Machine) where
  -- The loop over the spool roots stops at the first that fits; the last error stays.
  unfoldable pub find_spool_root : Option Error → List Text → JobValues → Result (Unit {0})
  unfolding check_spool_dir
  find_spool_root last [] v = error_or_ok last
  find_spool_root last (root ∷ roots) v = elim (check_spool_dir m v.spool root v.job_id v.task_id) [
    | ok _ ↦ ok tt
    | err e ↦ find_spool_root (some e) roots v
  ]

  unfoldable pub hook_env : LaunchSettings → JobValues → List Text
  unfolding time_zone hook_user_home
  hook_env s v =
      (assign (codes "JOB_ID") v.job_id
        ∷ assign (codes "SGE_JOB_SPOOL_DIR") v.spool
        ∷ assign (codes "SGE_ROOT") s.sge_root
        ∷ assign (codes "SGE_CELL") s.sge_cell
        ∷ [])
      ++ (if_set (codes "SGE_TASK_ID") v.task_id
          ++ (if_set (codes "SGE_QMASTER_PORT") s.qmaster_port
              ++ (if_set (codes "SGE_EXECD_PORT") s.execd_port ++ (time_zone v.tz ++ fixed_env m))))

  -- What follows the loader check and the settings' validation.
  unfoldable pub launch_values : LaunchSettings → JobValues → Result (List Text)
  launch_values s v = do
    guard (is_number v.job_id) (job_error (errorf "invalid JOB_ID" []))
    guard (is_nil v.task_id || task_pattern v.task_id) (job_error (errorf "invalid SGE_TASK_ID" []))
    or_fail (find_spool_root none (spool_roots_or_root s) v) job_error
    ok (hook_env s v)

  unfoldable pub launch_env : List Text → LaunchSettings → Result (List Text)
  launch_env environ s = do
    check_loader_env environ
    validate s
    launch_values s (job_values environ)
