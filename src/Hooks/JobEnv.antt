-- ===== src/Hooks/JobEnv.antt =====
-- src/internal/qrmiocs/env.go and the paths of paths.go: the job's environment file, written
-- together with the process environment. The receiver is never nil in the hooks.
pub mod Quiet
pub mod Sound
use qpu_resource.Prelude.{
  ℕ, Bool, true, false, not, List, [], ◌∷◌, ◌++◌, Option, none, some, Text, codes, String, ltb,
  if◌then◌else◌, is_nil,
}
use qpu_resource.Strings.{byte_size}
use qpu_resource.FilePath.{join_path}
use qpu_resource.Dict.{Dict}
use qpu_resource.Errors.{Error, errorf, wrapf, joined, Result, ok, err, Reply, done, fails, failed}
use qpu_resource.Qrmiocs.LogLevel.{rust_log_from_debug}
use qpu_resource.Qrmiocs.Sanitize.{assign, setenv}
use qpu_resource.Hooks.{
  Event, opened, changed_mode, appended, closed, warn, System, Process, History,
}
use qpu_resource.Hooks.Exec.{
  Exec, pure, raise, lift, call, wrapping, attempt, ◌>>=◌, ◌>>◌, or_else, log, getenv,
}

-- `ResolveJobEnvPath`, `ResolveUsagePath`, `ResolveMetadataPath`: a file of the job's spool directory.
unfoldable pub resolve_spool_file : Text → Exec Text
unfolding ◌>>=◌ join_path getenv
resolve_spool_file name = do
  spool ← getenv (codes "SGE_JOB_SPOOL_DIR")
  if is_nil spool
      then raise (errorf "SGE_JOB_SPOOL_DIR is unset" [])
      else pure (join_path spool name)

abbrev pub resolve_job_env_path : Exec Text
resolve_job_env_path = resolve_spool_file (codes "environment")

abbrev pub resolve_usage_path : Exec Text
resolve_usage_path = resolve_spool_file (codes "usage")

abbrev pub resolve_metadata_path : Exec Text
resolve_metadata_path = resolve_spool_file (codes "qrmi_ocs_acquired.tsv")

-- The process half of `Set`.
abbrev pub with_env : Result (Dict Text) → Process → Result (Unit {0}) × Process
with_env (ok env) p = (ok tt, record p { env = env })
with_env (err e) p = (err e, p)

unfoldable pub set_process_env : Text → Text → Exec (Unit {0})
unfolding setenv
set_process_env key value p = with_env (setenv key value p.env) p

abbrev pub env_line : Text → Text → Text
env_line key value = assign key value ++ b'\n' ∷ []

-- `bufio.NewWriter` buffers this many bytes; a longer line is written by `Fprintf` itself.
abbrev buffer_size : ℕ
buffer_size = 4096

abbrev write_failure : Text → Text → Error → Error
write_failure key line e =
    if ltb buffer_size (byte_size line)
    then wrapf "write %s to job env: %w" (key ∷ []) e
    else wrapf "flush job env: %w" [] e

module _ (s : System) where
  unfoldable pub close_job_env : Text → Exec (Unit {0})
  close_job_env path = call (closed path) (λ h. s.close h path)

  abbrev pub new_writer : Text → Exec Text
  new_writer path p = (ok path, record p { writer_error = none })

  -- `OpenJobEnv`, which gives the path.
  unfoldable pub open_job_env : Exec Text
  unfolding ◌>>=◌ resolve_spool_file close_job_env
  open_job_env = do
    path ← resolve_job_env_path
    wrapping (wrapf "open job env %s: %w" (path ∷ []))
        (call (opened path 0o600) (λ h. s.open_append h path))
    or_else (call (changed_mode path 0o600) (λ h. s.chmod h path)) λ e. do
      attempt (close_job_env path)
      raise (wrapf "set job env permissions %s: %w" (path ∷ []) e)
    new_writer path

  -- The file half of `Set`. A writer that failed once fails again, without a call.
  abbrev pub append_reply : Text → Text → Reply (Unit {0}) → Process → Result (Unit {0}) × Process
  append_reply key line (done u) p = (ok tt, p)
  append_reply key line (fails x) p =
      (err (write_failure key line (failed x)), record p { writer_error = some (failed x) })

  unfoldable pub append_line : Text → Text → Text → Option Error → Exec (Unit {0})
  append_line path key line (some e) p = (err (wrapf "write %s to job env: %w" (key ∷ []) e), p)
  append_line path key line none p =
      let r = s.append p.history path line in
      append_reply key line r (record p { history = appended path line r ∷ p.history })

  unfoldable pub write_job_env : Text → Text → Text → Exec (Unit {0})
  unfolding append_line byte_size
  write_job_env path key value p = append_line path key (env_line key value) p.writer_error p

  -- `JobEnv.Set`.
  unfoldable pub set : Text → Text → Text → Exec (Unit {0})
  unfolding ◌>>=◌ set_process_env write_job_env
  set path key value = do
    wrapping (wrapf "setenv %s: %w" (key ∷ [])) (set_process_env key value)
    write_job_env path key value

  -- A loop of `Set` over pairs, which stops at the first error.
  unfoldable pub set_pairs : Text → List (Text × Text) → Exec (Unit {0})
  unfolding ◌>>=◌ set
  set_pairs path [] = pure tt
  set_pairs path ((key, value) ∷ pairs) = do set path key value; set_pairs path pairs

  abbrev pub set_level : Text → Option Text → Exec (Unit {0})
  set_level path none = pure tt
  set_level path (some level) = set path (codes "RUST_LOG") level

  unfoldable pub apply_rust_log : Text → Text → Exec (Unit {0})
  unfolding pure set rust_log_from_debug
  apply_rust_log path level = set_level path (rust_log_from_debug level)

  abbrev pub plugin_error_key : Text
  plugin_error_key = codes "QRMI_PLUGIN_ERROR"

  abbrev pub prolog_status_key : Text
  prolog_status_key = codes "qrmi_prolog_status"

  -- `errors.Join` of the errors of two calls.
  abbrev pub join_errors : Result (Unit {0}) → Result (Unit {0}) → Result (Unit {0})
  join_errors (ok _) r = r
  join_errors (err e) (ok _) = err e
  join_errors (err e) (err e') = err (joined e e')

  abbrev pub message_or_default : Text → Text
  message_or_default message =
      if is_nil message then codes "unknown qrmi-ocs-prolog error" else message

  -- Both variables are set, also where the first fails.
  unfoldable pub set_plugin_error : Text → Text → Exec (Unit {0})
  unfolding ◌>>=◌ set
  set_plugin_error path message = do
    first ← attempt (set path plugin_error_key (message_or_default message))
    second ← attempt (set path prolog_status_key (codes "error"))
    lift (join_errors first second)
