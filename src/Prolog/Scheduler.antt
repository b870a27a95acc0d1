-- ===== src/Prolog/Scheduler.antt =====
-- What the prolog asks of the scheduler and of the account database: `schedulerJobID`,
-- `schedulerJobUID`, `runSchedulerCommand`, `readJobRequestedResource`, `readGrantedSlots` and
-- `checkHostOffers` of src/cmd/qrmi-ocs-prolog-go/main.go.
use qpu_resource.Prelude.{
  Bool, false, ◌||◌, List, [], ◌∷◌, ◌++◌, Option, none, some, Text, codes, text_eq, if◌then◌else◌,
  is_nil, has_char,
}
use qpu_resource.Prelude.Int.{ℤ, pos, is_neg}
use qpu_resource.Strings.{cut}
use qpu_resource.Decimal.{parse_int}
use qpu_resource.FilePath.{join_path, dir}
use qpu_resource.Machine.{Machine}
use qpu_resource.Trusted.{trusted_executable}
use qpu_resource.Errors.{
  Error, errorf, wrapf, job_error, retry_error, is_requested_resource_not_found, Result, ok, err,
  reply, done, fails, or_fail,
}
use qpu_resource.Hooks.{ran, System}
use qpu_resource.Hooks.Exec.{
  Exec, pure, raise, lift, call, wrapping, attempt, ◌>>=◌, or_else, getenv,
}
use qpu_resource.Prolog.Request.{
  Float64, parse_job_requested_resource, field_value, resource_from_list, parse_granted_slots,
}

pub record HookConfig : Type 0 where
  pub config_path : Text
  pub resource_name : Text
  pub slots_resource_name : Text
  pub qstat_path : Text
  pub log_level : Text

abbrev pub is_unset_task : Text → Bool
is_unset_task task_id =
    is_nil task_id || text_eq task_id (codes "undefined") || text_eq task_id (codes "0")

-- `schedulerJobID`.
unfoldable pub scheduler_job_id : Exec Text
unfolding ◌>>=◌ getenv text_eq
scheduler_job_id = do
  job_id ← getenv (codes "JOB_ID")
  task_id ← getenv (codes "SGE_TASK_ID")
  pure (if is_unset_task task_id then job_id else job_id ++ (b'.' ∷ task_id))

abbrev pub uid_or_error : Text → Text → Option ℤ → Result ℤ
uid_or_error uid owner none =
    err (errorf "invalid uid %q for scheduler job owner %q" (uid ∷ owner ∷ []))
uid_or_error uid owner (some z) =
    if is_neg z
    then err (errorf "invalid uid %q for scheduler job owner %q" (uid ∷ owner ∷ []))
    else ok z

-- `schedulerJobUID`.
unfoldable pub scheduler_job_uid : Machine → Text → Result ℤ
unfolding parse_int
scheduler_job_uid m owner =
    if is_nil owner then ok (pos m.real_uid) else elim (m.lookup_user owner) [
      | fails x ↦
          or_fail (reply (fails x)) (wrapf "look up scheduler job owner %q: %w" (owner ∷ []))
      | done account ↦ uid_or_error account.uid owner (parse_int account.uid)
    ]

module _ (s : System) where
  abbrev pub retry_run : Text → Error → Error
  retry_run path e = retry_error (wrapf "run %s %s: %w" (path ∷ []) e)

  -- `runSchedulerCommand`.
  unfoldable pub run_scheduler_command : Text → List Text → Exec Text
  unfolding ◌>>=◌ trusted_executable
  run_scheduler_command path args = do
    trusted ← lift (trusted_executable s.machine path)
    wrapping (retry_run trusted) (call (ran trusted args) (λ h. s.run h trusted args))

  -- `readJobRequestedResource`, which `readGranted` calls.
  unfoldable pub read_job_requested_resource : Text → Text → Exec Text
  unfolding ◌>>=◌ getenv run_scheduler_command parse_job_requested_resource
  read_job_requested_resource name qstat_path = do
    job_id ← getenv (codes "JOB_ID")
    if is_nil job_id then raise (errorf "JOB_ID is unset" []) else do
      out ← run_scheduler_command qstat_path (codes "-j" ∷ job_id ∷ [])
      lift (parse_job_requested_resource out name)

  abbrev pub short_name : Text → Text
  short_name host = (cut b'.' host).before

  -- The output of `qconf -se`, with the name that the host was asked by: a host name with a dot
  -- is tried again without its domain.
  abbrev pub ask_host : Text → Text → Exec (Text × Text)
  ask_host qconf_path host = do
    out ← run_scheduler_command qconf_path (codes "-se" ∷ host ∷ [])
    pure (host, out)

  unfoldable pub show_host : Text → Text → Exec (Text × Text)
  unfolding ◌>>=◌ run_scheduler_command cut has_char or_else
  show_host qconf_path host =
      or_else (ask_host qconf_path host)
        λ e. if has_char b'.' host then ask_host qconf_path (short_name host) else raise e

  abbrev pub offers : Option Text → Text → Bool
  offers none backend = false
  offers (some offered) backend = text_eq offered backend

  -- `checkHostOffers`.
  unfoldable pub check_host_offers : HookConfig → Text → Exec (Unit {0})
  unfolding ◌>>=◌ show_host resource_from_list field_value text_eq join_path dir
  check_host_offers cfg backend = do
    host ← lift (or_fail (reply s.hostname) (wrapf "read host name: %w" []))
    shown ← show_host (join_path (dir cfg.qstat_path) (codes "qconf")) host
    if offers (resource_from_list (field_value shown.1 (codes "complex_values")) cfg.resource_name)
          backend
        then pure tt
        else raise (
            job_error
              (errorf "host %s does not offer %s=%s" (shown.0 ∷ cfg.resource_name ∷ backend ∷ [])))

  -- `readGrantedSlots`.
  abbrev pub slots_of : Float64 → Text → Result Text → Exec (Option ℤ)
  slots_of fl name (ok raw) = do
    slots ←
        wrapping (wrapf "parse granted %s value %q: %w" (name ∷ raw ∷ []))
          (lift (parse_granted_slots fl raw))
    pure (some slots)
  slots_of fl name (err e) = if is_requested_resource_not_found e then pure none else raise e

  unfoldable pub read_granted_slots : Float64 → Text → Text → Exec (Option ℤ)
  read_granted_slots fl name qstat_path = do
    request ← attempt (read_job_requested_resource name qstat_path)
    slots_of fl name request
