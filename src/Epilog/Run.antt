-- ===== src/Epilog/Run.antt =====
-- `run` of src/cmd/qrmi-ocs-epilog-go/main.go. Log callbacks of libqrmi are not modelled.
use qpu_resource.Prelude.{
  zero, suc, ℕ, [], ◌∷◌, Option, none, some, Text, codes, if◌then◌else◌, ◌-◌,
}
use qpu_resource.Prelude.Int.{pos}
use qpu_resource.Decimal.{format_int}
use qpu_resource.Errors.{
  Error, Failure, is_not_exist, exit_ok, exit_host_error, Result, ok, err, failed,
}
use qpu_resource.Qrmiocs.LogLevel.{rust_log_from_debug}
use qpu_resource.Qrmiocs.Metadata.{Record, read_strict_single}
use qpu_resource.Hooks.{read, info, warn, error, FileText, History, System}
use qpu_resource.Hooks.Exec.{Exec, pure, lift, call, attempt, ◌>>=◌, ◌>>◌, log}
use qpu_resource.Hooks.JobEnv.{set_process_env, resolve_metadata_path}
use qpu_resource.Hooks.MetadataFile.{remove_file, preserve_failed_release}
use qpu_resource.Epilog.Release.{EpilogConfig, release_record}
use qpu_resource.Epilog.Summary.{publish_summary}

module _ (s : System) where
  abbrev reading_error : Option Failure → Option Error
  reading_error none = none
  reading_error (some x) = some (failed x)

  abbrev pub record_of_text : FileText → Result Record
  record_of_text f = read_strict_single (reading_error f.read_error) f.text

  -- `ReadStrictSingle` of the file at a path.
  unfoldable pub read_record : Text → Exec Record
  read_record path = do f ← call (λ _. read path) (λ h. s.read_file h path); lift (record_of_text f)

  abbrev pub removal : Text → Result (Unit {0}) → Exec (Unit {0})
  removal path (ok _) = pure tt
  removal path (err e) =
      if is_not_exist e
      then pure tt
      else log warn "failed to remove metadata file %s: %v" (path ∷ s.error_text e ∷ [])

  abbrev pub preserved : Text → Result Text → Exec (Unit {0})
  preserved path (ok kept) = log warn "moved metadata for administrator recovery to %s" (kept ∷ [])
  preserved path (err e) =
      log warn "failed to move metadata file %s out of the job spool for administrator recovery: %v"
        (path ∷ s.error_text e ∷ [])

  -- What becomes of the metadata file, by `failed`.
  unfoldable pub settle : Text → ℕ → Exec (Unit {0})
  settle path zero = do r ← attempt (remove_file s path); removal path r
  settle path (suc _) = do r ← attempt (preserve_failed_release s path); preserved path r

  -- `failed` and `exitCode` after the release.
  abbrev pub after_release : Result (Unit {0}) → Exec (ℕ × ℕ)
  after_release (ok _) = pure (0, exit_ok)
  after_release (err e) = do log error "%v" (s.error_text e ∷ []); pure (1, exit_ok)

  unfoldable pub release_if_read : EpilogConfig → Text → Result Record → Exec (ℕ × ℕ)
  release_if_read cfg path (err e) = do
    log error "read metadata %s: %v" (path ∷ s.error_text e ∷ [])
    pure (1, exit_host_error)
  release_if_read cfg path (ok r) = do
    released_or_not ← attempt (release_record s cfg r)
    after_release released_or_not

  abbrev pub moment : Exec History
  moment p = (ok p.history, p)

  -- `run` where the metadata file exists.
  unfoldable pub finish : EpilogConfig → Text → Result Record → Exec ℕ
  finish cfg path r = do
    start ← moment
    outcome ← release_if_read cfg path r
    settle path outcome.0
    end ← moment
    publish_summary s outcome.0 (s.seconds_between start end)
    log info "release summary: total=1 success=%d failed=%d elapsed=%ds" (
        format_int (pos (1 - outcome.0))
        ∷ format_int (pos outcome.0)
        ∷ format_int (s.seconds_between start end)
        ∷ [])
    pure outcome.1

  abbrev pub finish_or_skip : EpilogConfig → Text → Result Record → Exec ℕ
  finish_or_skip cfg path (ok r) = finish cfg path (ok r)
  finish_or_skip cfg path (err e) =
      if is_not_exist e
      then (do log info "no metadata file found at %s; skipping release" (path ∷ []); pure exit_ok)
      else finish cfg path (err e)

  abbrev pub with_path : EpilogConfig → Result Text → Exec ℕ
  with_path cfg (err e) = do
    log error "resolve metadata path: %v" (s.error_text e ∷ [])
    pure exit_host_error
  with_path cfg (ok path) = do r ← attempt (read_record path); finish_or_skip cfg path r

  abbrev pub set_rust_log : Option Text → Exec (Unit {0})
  set_rust_log none = pure tt
  set_rust_log (some level) = do attempt (set_process_env (codes "RUST_LOG") level); pure tt

  -- `run`, which gives the exit code.
  unfoldable pub run : EpilogConfig → Exec ℕ
  unfolding rust_log_from_debug
  run cfg = do
    set_rust_log (rust_log_from_debug cfg.log_level)
    path ← attempt resolve_metadata_path
    with_path cfg path
