-- ===== src/Prolog/Run.antt =====
-- `runWithConfig` of src/cmd/qrmi-ocs-prolog-go/main.go, up to the acquisition. Each `defer` opens
-- a function of its own here, since it covers what follows it.
use qpu_resource.Prelude.{List, [], ◌∷◌, Option, none, some, Text, codes, if◌then◌else◌, is_nil}
use qpu_resource.Prelude.Int.{ℤ}
use qpu_resource.Decimal.{format_int}
use qpu_resource.Errors.{
  errorf, wrapf, job_error, retry_error, is_requested_resource_not_found, Result, ok, err, reply,
  or_fail,
}
use qpu_resource.Qrmiocs.Grant.{parse_granted_backend}
use qpu_resource.Hooks.{
  loaded_config, closed_config, closed_def, created_resource, closed_resource, asked_accessible,
  acquired, info, ResourceDef, Config, System,
}
use qpu_resource.Hooks.Exec.{
  Exec, pure, raise, lift, call, attempt, ◌>>=◌, ◌>>◌, deferring, log, note,
}
use qpu_resource.Hooks.JobEnv.{open_job_env, close_job_env, set_pairs, apply_rust_log}
use qpu_resource.Prolog.Request.{Float64}
use qpu_resource.Prolog.Scheduler.{
  HookConfig, scheduler_job_id, scheduler_job_uid, read_job_requested_resource, read_granted_slots,
  check_host_offers,
}
use qpu_resource.Prolog.Acquire.{backend_pairs, given_pairs, report_error, reporting, keep_token}

module _ (s : System) (fl : Float64) (cfg : HookConfig) (job_owner : Text) where
  abbrev pub slots_pair : Option ℤ → List (Text × Text)
  slots_pair none = []
  slots_pair (some slots) = (codes "QRMI_JOB_QPU_SLOTS", format_int slots) ∷ []

  unfoldable pub granted_slots : Exec (Option ℤ)
  granted_slots =
      if is_nil cfg.slots_resource_name
      then pure none
      else read_granted_slots s fl cfg.slots_resource_name cfg.qstat_path

  -- `exportSchedulerJobEnv`.
  unfoldable pub export_scheduler_job_env : Text → Exec (Unit {0})
  export_scheduler_job_env path = do
    uid ← lift (scheduler_job_uid s.machine job_owner)
    job_id ← scheduler_job_id
    slots ← granted_slots
    set_pairs s path (
        given_pairs s (
          (codes "QRMI_JOB_UID", format_int uid)
          ∷ (codes "QRMI_JOB_ID", job_id)
          ∷ slots_pair slots))

  -- From the accessibility check on.
  unfoldable pub acquire_and_keep : Text → Text → ResourceDef → Exec (Unit {0})
  acquire_and_keep path backend d = do
    accessible ←
        reporting s path
          (λ e. retry_error (wrapf "backend %s accessibility check: %w" (backend ∷ []) e))
          (call asked_accessible s.is_accessible)
    if accessible
        then (do
          token ←
              reporting s path
                (λ e. retry_error (wrapf "acquire token for %s: %w" (backend ∷ []) e))
                (call acquired s.acquire)
          keep_token s path backend d token)
        else report_error s path
            (retry_error (errorf "backend %s is not accessible" (backend ∷ [])))

  -- With the resource definition.
  unfoldable pub with_def : Text → Text → ResourceDef → Exec (Unit {0})
  with_def path backend d = do
    reporting s path (wrapf "apply backend env for %s: %w" (backend ∷ []))
        (set_pairs s path (backend_pairs s backend d.environments))
    reporting s path (wrapf "export scheduler job env: %w" []) (export_scheduler_job_env path)
    reporting s path (wrapf "new qrmi resource %s: %w" (backend ∷ []))
        (call (created_resource backend d.kind) (λ h. s.new_resource h backend d.kind))
    deferring (note closed_resource) (acquire_and_keep path backend d)

  -- With the loaded configuration.
  unfoldable pub with_config : Text → Text → Config → Exec (Unit {0})
  with_config path backend config = do
    d ←
        reporting s path
          (λ e. job_error (wrapf "resource %q not in %s: %w" (backend ∷ cfg.config_path ∷ []) e))
          (lift (reply (config backend)))
    deferring (note closed_def) (with_def path backend d)

  -- With the job environment file.
  unfoldable pub with_job_env : Text → Text → Exec (Unit {0})
  with_job_env backend path = do
    reporting s path (wrapf "apply RUST_LOG: %w" []) (apply_rust_log s path cfg.log_level)
    config ←
        reporting s path (wrapf "load qrmi config %s: %w" (cfg.config_path ∷ []))
          (call (λ _. loaded_config cfg.config_path) (λ h. s.load_config h cfg.config_path))
    deferring (note closed_config) (with_config path backend config)

  -- With the granted value.
  unfoldable pub serve : Text → Exec (Unit {0})
  serve granted = do
    backend ← lift (
        or_fail (parse_granted_backend granted)
          (λ e. job_error (wrapf "parse granted resource value %q: %w" (granted ∷ []) e)))
    check_host_offers s cfg backend
    path ← open_job_env s
    deferring (close_job_env s path) (with_job_env backend path)

  abbrev pub serve_request : Result Text → Exec (Unit {0})
  serve_request (ok granted) = serve granted
  serve_request (err e) =
      if is_requested_resource_not_found e
      then log info "job requests no %s resource; nothing to do" (cfg.resource_name ∷ [])
      else raise e

  unfoldable pub run_with_config : Exec (Unit {0})
  run_with_config = do
    request ← attempt (read_job_requested_resource s cfg.resource_name cfg.qstat_path)
    serve_request request
