-- ===== src/Epilog/Summary.antt =====
-- `publishSummary` and `appendUsage` of src/cmd/qrmi-ocs-epilog-go/main.go.
use qpu_resource.Prelude.{ℕ, List, [], ◌∷◌, ◌++◌, Text, codes, if◌then◌else◌, ◌-◌, ◌==◌}
use qpu_resource.Prelude.Int.{ℤ, pos}
use qpu_resource.Decimal.{format_int}
use qpu_resource.Errors.{Result, ok, err}
use qpu_resource.Hooks.{opened, appended, warn, System}
use qpu_resource.Hooks.Exec.{Exec, pure, call, attempt, ◌>>=◌, ◌>>◌, or_else, deferring, log}
use qpu_resource.Hooks.JobEnv.{set, env_line, open_job_env, close_job_env, resolve_usage_path}

module _ (s : System) where
  -- The appending half of `appendUsage`; each line is one call.
  unfoldable pub append_metrics : Text → List (Text × Text) → Exec (Unit {0})
  append_metrics path [] = pure tt
  append_metrics path ((k, v) ∷ metrics) = do
    call (appended path (env_line k v)) (λ h. s.append h path (env_line k v))
    append_metrics path metrics

  -- `appendUsage`.
  unfoldable pub append_usage : Text → List (Text × Text) → Exec (Unit {0})
  append_usage path metrics = do
    call (opened path 0o644) (λ h. s.open_append h path)
    deferring (close_job_env s path) (append_metrics path metrics)

  -- Every metric is set, whatever became of those before it.
  unfoldable pub mirror_metrics : Text → List (Text × Text) → Exec (Unit {0})
  mirror_metrics path [] = pure tt
  mirror_metrics path ((k, v) ∷ metrics) = do
    or_else (set s path k v) λ e. log warn "write %s to job env: %v" (k ∷ s.error_text e ∷ [])
    mirror_metrics path metrics

  abbrev metrics_of : ℕ → ℤ → List (Text × Text)
  metrics_of failed_count elapsed =
      (codes "qrmi_release_total", codes "1")
      ∷ (codes "qrmi_release_success", format_int (pos (1 - failed_count)))
      ∷ (codes "qrmi_release_failed", format_int (pos failed_count))
      ∷ (codes "qrmi_release_elapsed_seconds", format_int elapsed)
      ∷ []

  abbrev pub mirrored : ℕ → ℤ → List (Text × Text)
  mirrored failed_count elapsed =
      metrics_of failed_count elapsed
      ++ ((codes "qrmi_epilog_status", if failed_count == 0 then codes "success" else codes "error")
          ∷ [])

  abbrev pub accounted : ℕ → ℤ → List (Text × Text)
  accounted failed_count elapsed =
      (codes "qrmi_acquired_count", codes "1")
      ∷ (metrics_of failed_count elapsed
          ++ ((codes "qrmi_epilog_status_code", if failed_count == 0 then codes "1" else codes "0")
              ∷ []))

  abbrev pub account_in : ℕ → ℤ → Result Text → Exec (Unit {0})
  account_in failed_count elapsed (ok path) =
      or_else (append_usage path (accounted failed_count elapsed))
        λ e. log warn "append usage %s: %v" (path ∷ s.error_text e ∷ [])
  account_in failed_count elapsed (err e) = log warn "resolve usage path: %v" (s.error_text e ∷ [])

  unfoldable pub account : ℕ → ℤ → Exec (Unit {0})
  account failed_count elapsed = do
    usage_path ← attempt resolve_usage_path
    account_in failed_count elapsed usage_path

  abbrev pub mirror_and_account : ℕ → ℤ → Result Text → Exec (Unit {0})
  mirror_and_account failed_count elapsed (ok path) =
      deferring (close_job_env s path)
        (do mirror_metrics path (mirrored failed_count elapsed); account failed_count elapsed)
  mirror_and_account failed_count elapsed (err e) = do
    log warn "open job env: %v" (s.error_text e ∷ [])
    account failed_count elapsed

  -- `publishSummary`. The job environment file is closed at the end of the function.
  unfoldable pub publish_summary : ℕ → ℤ → Exec (Unit {0})
  publish_summary failed_count elapsed = do
    opened_env ← attempt (open_job_env s)
    mirror_and_account failed_count elapsed opened_env
