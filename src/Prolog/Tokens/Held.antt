-- ===== src/Prolog/Tokens/Held.antt =====
-- Actions of the prolog that neither take nor give back a token.
use qpu_resource.Prelude.{
  List, [], ◌∷◌, ◌++◌, refl, none, some, Text, codes, has_char, is_nil, if◌then◌else◌,
}
use qpu_resource.FilePath.{join_path, dir}
use qpu_resource.Errors.{
  errorf, wrapf, job_error, Result, ok, err, reply, or_fail, is_requested_resource_not_found,
}
use qpu_resource.Trusted.{trusted_executable}
use qpu_resource.Hooks.{System, ran, opened, changed_mode, closed}
use qpu_resource.Hooks.Exec.{pure, raise, lift, call, wrapping, attempt, getenv}
use qpu_resource.Hooks.Keeps.{
  Keeps, Keeps-bind, Keeps-wrapping, Keeps-pure, Keeps-raise, Keeps-attempt, Keeps-lift,
  Keeps-getenv, Keeps-if, Keeps-call, Keeps-or_else,
}
use qpu_resource.Hooks.JobEnv.{open_job_env, close_job_env, resolve_job_env_path}
use qpu_resource.Hooks.JobEnv.Quiet.{IgnoresAppends, resolve_spool_file-Keeps}
use qpu_resource.Prolog.Request.{
  Float64, parse_job_requested_resource, resource_from_list, field_value, parse_granted_slots,
}
use qpu_resource.Prolog.Scheduler.{
  HookConfig, scheduler_job_id, is_unset_task, run_scheduler_command, read_job_requested_resource,
  ask_host, show_host, retry_run, short_name, offers, check_host_offers, slots_of,
  read_granted_slots,
}
use qpu_resource.Prolog.Tokens.{view}

pub view-IgnoresAppends : IgnoresAppends view
unfolding view
view-IgnoresAppends = record { ignored = λ path line r h. refl }

pub scheduler_job_id-Keeps : Keeps view scheduler_job_id
unfolding scheduler_job_id
scheduler_job_id-Keeps =
    Keeps-bind view (getenv (codes "JOB_ID")) _ (Keeps-getenv view (codes "JOB_ID")) λ job_id.
      Keeps-bind view (getenv (codes "SGE_TASK_ID")) _ (Keeps-getenv view (codes "SGE_TASK_ID"))
        λ task_id.
          Keeps-pure view (if is_unset_task task_id then job_id else job_id ++ (b'.' ∷ task_id))

module _ (s : System) where
  pub close_job_env-Keeps : (path : Text) → Keeps view (close_job_env s path)
  unfolding close_job_env view
  close_job_env-Keeps path = Keeps-call view (closed path) (λ h. s.close h path) λ r h. refl

  ran-Keeps :
      (path : Text) (args : List Text) → Keeps view (call (ran path args) (λ h. s.run h path args))
  unfolding view
  ran-Keeps path args = Keeps-call view (ran path args) (λ h. s.run h path args) λ r h. refl

  run_scheduler_command-Keeps :
      (path : Text) (args : List Text) → Keeps view (run_scheduler_command s path args)
  unfolding run_scheduler_command
  run_scheduler_command-Keeps path args =
      Keeps-bind view (lift (trusted_executable s.machine path)) _
        (Keeps-lift view (trusted_executable s.machine path))
        λ trusted.
          Keeps-wrapping view (retry_run s trusted)
            (call (ran trusted args) (λ h. s.run h trusted args)) (ran-Keeps trusted args)

  pub read_job_requested_resource-Keeps :
      (name path : Text) → Keeps view (read_job_requested_resource s name path)
  unfolding read_job_requested_resource
  read_job_requested_resource-Keeps name path =
      Keeps-bind view (getenv (codes "JOB_ID")) _ (Keeps-getenv view (codes "JOB_ID")) λ job_id.
        Keeps-if view (is_nil job_id) (raise (errorf "JOB_ID is unset" [])) _
          (Keeps-raise view (errorf "JOB_ID is unset" []))
          (Keeps-bind view (run_scheduler_command s path (codes "-j" ∷ job_id ∷ [])) _
            (run_scheduler_command-Keeps path (codes "-j" ∷ job_id ∷ []))
            λ out. Keeps-lift view (parse_job_requested_resource out name))

  asked_host : (path host : Text) → Keeps view (ask_host s path host)
  asked_host path host =
      Keeps-bind view (run_scheduler_command s path (codes "-se" ∷ host ∷ [])) _
        (run_scheduler_command-Keeps path (codes "-se" ∷ host ∷ []))
        λ out. Keeps-pure view (host, out)

  show_host-Keeps : (path host : Text) → Keeps view (show_host s path host)
  unfolding show_host
  show_host-Keeps path host =
      Keeps-or_else view (ask_host s path host) _ (asked_host path host) λ e.
        Keeps-if view (has_char b'.' host) (ask_host s path (short_name s host)) (raise e)
          (asked_host path (short_name s host)) (Keeps-raise view e)

  pub check_host_offers-Keeps :
      (cfg : HookConfig) (backend : Text) → Keeps view (check_host_offers s cfg backend)
  unfolding check_host_offers
  check_host_offers-Keeps cfg backend =
      Keeps-bind view (lift (or_fail (reply s.hostname) (wrapf "read host name: %w" []))) _
        (Keeps-lift view (or_fail (reply s.hostname) (wrapf "read host name: %w" [])))
        λ host.
          Keeps-bind view (show_host s (join_path (dir cfg.qstat_path) (codes "qconf")) host) _
            (show_host-Keeps (join_path (dir cfg.qstat_path) (codes "qconf")) host)
            λ shown.
              Keeps-if view
                (offers s
                  (resource_from_list (field_value shown.1 (codes "complex_values"))
                    cfg.resource_name)
                  backend)
                (pure tt)
                (raise (
                  job_error (
                    errorf "host %s does not offer %s=%s"
                      (shown.0 ∷ cfg.resource_name ∷ backend ∷ []))))
                (Keeps-pure view tt)
                (Keeps-raise view (
                  job_error (
                    errorf "host %s does not offer %s=%s"
                      (shown.0 ∷ cfg.resource_name ∷ backend ∷ []))))

  slots_of-Keeps :
      (fl : Float64) (name : Text) (r : Result Text) → Keeps view (slots_of s fl name r)
  slots_of-Keeps fl name (ok raw) =
      Keeps-bind view
        (wrapping (wrapf "parse granted %s value %q: %w" (name ∷ raw ∷ []))
          (lift (parse_granted_slots fl raw)))
        _
        (Keeps-wrapping view _ (lift (parse_granted_slots fl raw))
          (Keeps-lift view (parse_granted_slots fl raw)))
        λ slots. Keeps-pure view (some slots)
  slots_of-Keeps fl name (err e) =
      Keeps-if view (is_requested_resource_not_found e) (pure none) (raise e) (Keeps-pure view none)
        (Keeps-raise view e)

  pub read_granted_slots-Keeps :
      (fl : Float64) (name path : Text) → Keeps view (read_granted_slots s fl name path)
  unfolding read_granted_slots
  read_granted_slots-Keeps fl name path =
      Keeps-bind view (attempt (read_job_requested_resource s name path)) _
        (Keeps-attempt view (read_job_requested_resource s name path)
          (read_job_requested_resource-Keeps name path))
        λ r. slots_of-Keeps fl name r

  pub open_job_env-Keeps : Keeps view (open_job_env s)
  unfolding open_job_env view
  open_job_env-Keeps =
      Keeps-bind view resolve_job_env_path _ (resolve_spool_file-Keeps view (codes "environment"))
        λ path.
          Keeps-bind view _ _
            (Keeps-wrapping view (wrapf "open job env %s: %w" (path ∷ []))
              (call (opened path 0o600) (λ h. s.open_append h path))
              (Keeps-call view (opened path 0o600) (λ h. s.open_append h path) λ r h. refl))
            λ _.
              Keeps-bind view _ _
                (Keeps-or_else view (call (changed_mode path 0o600) (λ h. s.chmod h path)) _
                  (Keeps-call view (changed_mode path 0o600) (λ h. s.chmod h path) λ r h. refl)
                  λ e.
                    Keeps-bind view (attempt (close_job_env s path)) _
                      (Keeps-attempt view (close_job_env s path) (close_job_env-Keeps path))
                      λ _. Keeps-raise view (wrapf "set job env permissions %s: %w" (path ∷ []) e))
                λ _. record { at = λ p. refl }
