-- ===== src/Prolog/Tokens/Safety.antt =====
-- No token is lost: `runWithConfig` of src/cmd/qrmi-ocs-prolog-go/main.go.
use Prim.{⊥}
use qpu_resource.Prelude.{List, [], ◌∷◌, refl, ap, none, Text, is_nil, inl, inr}
use qpu_resource.Prelude.Int.{ℤ}
use qpu_resource.Errors.{
  Error, errorf, retry_error, Result, ok, err, Reply, done, fails, failed, reply,
  is_requested_resource_not_found,
}
use qpu_resource.Hooks.{
  System, Process, ResourceDef, Config, loaded_config, closed_config, closed_def, created_resource,
  closed_resource, asked_accessible, acquired, info,
}
use qpu_resource.Hooks.Exec.{Exec, pure, raise, lift, call, continue, handle, ◌>>=◌, or_else, note}
use qpu_resource.Hooks.Keeps.{
  Keeps, Keeps-bind, Keeps-attempt, Keeps-call, Keeps-lift, Keeps-pure, Keeps-if, Keeps-note,
  Keeps-log,
}
use qpu_resource.Hooks.Triple.{
  Triple, Outcome, Triple-bind, Triple-Keeps, Triple-raise, Triple-call, Triple-deferring,
  Triple-if, Triple-weaken, Triple-worse,
}
use qpu_resource.Hooks.JobEnv.{close_job_env}
use qpu_resource.Hooks.JobEnv.Quiet.{set_pairs-Keeps, apply_rust_log-Keeps}
use qpu_resource.Prolog.Request.{Float64}
use qpu_resource.Prolog.Scheduler.{HookConfig, scheduler_job_id, scheduler_job_uid}
use qpu_resource.Prolog.Acquire.{reporting, report_error, keep_token, backend_pairs}
use qpu_resource.Prolog.Run.{
  granted_slots, export_scheduler_job_env, acquire_and_keep, with_def, with_config, with_job_env,
  serve, serve_request, run_with_config,
}
use qpu_resource.Prolog.Tokens.{
  View, view, unreleased, last_resource, up_to_acquired, Holds, Made, Kept, Served,
  MakesTemporaries,
}
use qpu_resource.Prolog.Tokens.Held.{
  view-IgnoresAppends, scheduler_job_id-Keeps, close_job_env-Keeps, open_job_env-Keeps,
  read_job_requested_resource-Keeps, check_host_offers-Keeps, read_granted_slots-Keeps,
}
use qpu_resource.Prolog.Tokens.Giving.{report_error-Triple, reporting-Triple}
use qpu_resource.Prolog.Tokens.Keeping.{keep_token_from}

module _ (s : System) (fl : Float64) (cfg : HookConfig) (job_owner : Text) where
  granted_slots-Keeps : Keeps view (granted_slots s fl cfg job_owner)
  unfolding granted_slots
  granted_slots-Keeps =
      Keeps-if view (is_nil cfg.slots_resource_name) (pure none) _ (Keeps-pure view none)
        (read_granted_slots-Keeps s fl cfg.slots_resource_name cfg.qstat_path)

  pub export_scheduler_job_env-Keeps :
      (path : Text) → Keeps view (export_scheduler_job_env s fl cfg job_owner path)
  unfolding export_scheduler_job_env
  export_scheduler_job_env-Keeps path =
      Keeps-bind view (lift (scheduler_job_uid s.machine job_owner)) _
        (Keeps-lift view (scheduler_job_uid s.machine job_owner))
        λ uid. Keeps-bind view scheduler_job_id _ scheduler_job_id-Keeps λ job_id.
          Keeps-bind view (granted_slots s fl cfg job_owner) _ granted_slots-Keeps
            λ slots. set_pairs-Keeps view view-IgnoresAppends s path _

  module _ (fresh : MakesTemporaries s) (ts : List Text) where
    asked-Triple :
        (backend : Text) (kind : ℤ)
        → Triple view
            (Made ts backend kind)
            (call asked_accessible s.is_accessible)
            (λ _. Made ts backend kind)
            (Made ts backend kind)
    unfolding view unreleased last_resource
    asked-Triple backend kind =
        Triple-call view (λ _. Made ts backend kind) (Made ts backend kind) (Made ts backend kind)
          asked_accessible s.is_accessible (λ b h m. m) (λ x h m. m)

    -- The token that libqrmi gives, and what becomes of it.
    taken :
        (path backend : Text) (d : ResourceDef) (f : Error → Error) (r : Reply Text) (p : Process)
        → Made ts backend d.kind (view p.history)
        → let q = record p { history = acquired r ∷ p.history } in
          let first = handle (reply r) (λ e. report_error s path (f e)) q in
          Outcome view
            (λ _. Kept s ts)
            (Holds ts)
            (continue first.0 (keep_token s path backend d) first.1)
    unfolding view unreleased last_resource up_to_acquired report_error ◌>>=◌
    taken path backend d f (done t) p (b, r) =
        keep_token_from s fresh path backend d ts t
          (record p { history = acquired (done t) ∷ p.history }) (ap (λ us. t ∷ us) b, r) refl
    taken path backend d f (fails x) p (b, r) =
        (Triple-bind view (λ _ _. ⊥) (λ _. Kept s ts) (Holds ts) (Holds ts)
            (report_error s path (f (failed x))) (keep_token s path backend d)
            (report_error-Triple s path (Holds ts) (λ _ _. ⊥) (f (failed x)))
            λ t. record { at = λ q h. absurd h }).at
          (record p { history = acquired (fails x) ∷ p.history }) b

    acquire_and_keep-Triple :
        (path backend : Text) (d : ResourceDef)
        → Triple view
            (Made ts backend d.kind)
            (acquire_and_keep s fl cfg job_owner path backend d)
            (λ _. Kept s ts)
            (Holds ts)
    unfolding acquire_and_keep ◌>>=◌ or_else call
    acquire_and_keep-Triple path backend d =
        Triple-bind view (λ _. Made ts backend d.kind) (λ _. Kept s ts) (Holds ts)
          (Made ts backend d.kind) _ _
          (Triple-worse view _ (Made ts backend d.kind) (Made ts backend d.kind) _ (Holds ts)
            (λ v (b, _). b)
            (reporting-Triple s path (Made ts backend d.kind) (λ _. Made ts backend d.kind)
              (Made ts backend d.kind) _ _ (asked-Triple backend d.kind)))
          λ accessible.
            Triple-if view (Made ts backend d.kind) accessible _ _ (λ _. Kept s ts) (Holds ts)
              (record { at = λ p h. taken path backend d _ (s.acquire p.history) p h })
              (Triple-worse view _ (Made ts backend d.kind) (Made ts backend d.kind) _ (Holds ts)
                (λ v (b, _). b)
                (report_error-Triple s path (Made ts backend d.kind) (λ _. Kept s ts)
                  (retry_error (errorf "backend %s is not accessible" (backend ∷ [])))))

    created-Triple :
        (backend : Text) (kind : ℤ)
        → Triple view
            (Holds ts)
            (call (created_resource backend kind) (λ h. s.new_resource h backend kind))
            (λ _. Made ts backend kind)
            (Holds ts)
    unfolding view unreleased last_resource
    created-Triple backend kind =
        Triple-call view (λ _. Made ts backend kind) (Holds ts) (Holds ts)
          (created_resource backend kind) (λ h. s.new_resource h backend kind) (λ _ h b. (b, refl))
          (λ x h b. b)

    closed_resource-Keeps : Keeps view (note closed_resource)
    unfolding view
    closed_resource-Keeps = Keeps-note view closed_resource λ h. refl

    closed_def-Keeps : Keeps view (note closed_def)
    unfolding view
    closed_def-Keeps = Keeps-note view closed_def λ h. refl

    closed_config-Keeps : Keeps view (note closed_config)
    unfolding view
    closed_config-Keeps = Keeps-note view closed_config λ h. refl

    loaded-Keeps :
        Keeps view
          (call (λ _. loaded_config cfg.config_path) (λ h. s.load_config h cfg.config_path))
    unfolding view
    loaded-Keeps = Keeps-call view _ (λ h. s.load_config h cfg.config_path) λ r h. refl

    -- A step that reports its error and leaves the tokens as they are.
    step-Triple {ℓ κ} :
        {A : Type ℓ} {B : Type κ} (path : Text) (f : Error → Error) (m : Exec A) (g : A → Exec B)
        (good : B → View → Type 0)
        → Keeps view m
        → ((a : A) → Triple view (Holds ts) (g a) good (Holds ts))
        → Triple view (Holds ts) (reporting s path f m >>= g) good (Holds ts)
    step-Triple path f m g good k t =
        Triple-bind view (λ _. Holds ts) good (Holds ts) (Holds ts) (reporting s path f m) g
          (reporting-Triple s path (Holds ts) (λ _. Holds ts) (Holds ts) f m
            (Triple-Keeps view (Holds ts) m k))
          t

    with_def-Triple :
        (path backend : Text) (d : ResourceDef)
        → Triple view
            (Holds ts)
            (with_def s fl cfg job_owner path backend d)
            (λ _. Kept s ts)
            (Holds ts)
    unfolding with_def
    with_def-Triple path backend d =
        step-Triple path _ _ _ (λ _. Kept s ts)
          (set_pairs-Keeps view view-IgnoresAppends s path (backend_pairs s backend d.environments))
          λ _.
            step-Triple path _ _ _ (λ _. Kept s ts) (export_scheduler_job_env-Keeps path)
              λ _.
                Triple-bind view (λ _. Made ts backend d.kind) (λ _. Kept s ts) (Holds ts)
                  (Holds ts) _ _
                  (reporting-Triple s path (Holds ts) (λ _. Made ts backend d.kind) (Holds ts) _ _
                    (created-Triple backend d.kind))
                  λ _.
                    Triple-deferring view (λ _. Kept s ts) (Holds ts) (Made ts backend d.kind)
                      (note closed_resource) _ closed_resource-Keeps
                      (acquire_and_keep-Triple path backend d)

    with_config-Triple :
        (path backend : Text) (config : Config)
        → Triple view
            (Holds ts)
            (with_config s fl cfg job_owner path backend config)
            (λ _. Kept s ts)
            (Holds ts)
    unfolding with_config
    with_config-Triple path backend config =
        step-Triple path _ _ _ (λ _. Kept s ts) (Keeps-lift view (reply (config backend)))
          λ d.
            Triple-deferring view (λ _. Kept s ts) (Holds ts) (Holds ts) (note closed_def) _
              closed_def-Keeps (with_def-Triple path backend d)

    with_job_env-Triple :
        (backend path : Text)
        → Triple view
            (Holds ts)
            (with_job_env s fl cfg job_owner backend path)
            (λ _. Kept s ts)
            (Holds ts)
    unfolding with_job_env
    with_job_env-Triple backend path =
        step-Triple path _ _ _ (λ _. Kept s ts)
          (apply_rust_log-Keeps view view-IgnoresAppends s path cfg.log_level)
          λ _.
            step-Triple path _ _ _ (λ _. Kept s ts) loaded-Keeps
              λ config.
                Triple-deferring view (λ _. Kept s ts) (Holds ts) (Holds ts) (note closed_config) _
                  closed_config-Keeps (with_config-Triple path backend config)

    serve-Triple :
        (granted : Text)
        → Triple view (Holds ts) (serve s fl cfg job_owner granted) (λ _. Kept s ts) (Holds ts)
    unfolding serve
    serve-Triple granted =
        Triple-bind view (λ _. Holds ts) (λ _. Kept s ts) (Holds ts) (Holds ts) _ _
          (Triple-Keeps view (Holds ts) _ (Keeps-lift view _))
          λ backend.
            Triple-bind view (λ _. Holds ts) (λ _. Kept s ts) (Holds ts) (Holds ts) _ _
              (Triple-Keeps view (Holds ts) _ (check_host_offers-Keeps s cfg backend))
              λ _.
                Triple-bind view (λ _. Holds ts) (λ _. Kept s ts) (Holds ts) (Holds ts) _ _
                  (Triple-Keeps view (Holds ts) _ (open_job_env-Keeps s))
                  λ path.
                    Triple-deferring view (λ _. Kept s ts) (Holds ts) (Holds ts)
                      (close_job_env s path) _ (close_job_env-Keeps s path)
                      (with_job_env-Triple backend path)

    serve_request-Triple :
        (r : Result Text)
        → Triple view (Holds ts) (serve_request s fl cfg job_owner r) (λ _. Served s ts) (Holds ts)
    unfolding view
    serve_request-Triple (ok granted) =
        Triple-weaken view (λ _. Kept s ts) (Holds ts) (Holds ts) _ (λ _. Served s ts)
          (λ _ v k. inr k) (serve-Triple granted)
    serve_request-Triple (err e) =
        Triple-if view (Holds ts) (is_requested_resource_not_found e) _ (raise e) (λ _. Served s ts)
          (Holds ts)
          (Triple-weaken view (λ _. Holds ts) (Holds ts) (Holds ts) _ (λ _. Served s ts)
            (λ _ v k. inl k)
            (Triple-Keeps view (Holds ts) _ (
              Keeps-log view info "job requests no %s resource; nothing to do"
                (cfg.resource_name ∷ []) λ h. refl)))
          (Triple-raise view (Holds ts) e (λ _. Served s ts))

    run_with_config-Triple :
        Triple view (Holds ts) (run_with_config s fl cfg job_owner) (λ _. Served s ts) (Holds ts)
    unfolding run_with_config
    run_with_config-Triple =
        Triple-bind view (λ _. Holds ts) (λ _. Served s ts) (Holds ts) (Holds ts) _ _
          (Triple-Keeps view (Holds ts) _ (
            Keeps-attempt view _
              (read_job_requested_resource-Keeps s cfg.resource_name cfg.qstat_path)))
          λ r. serve_request-Triple r

-- Whatever the system and libqrmi reply, as long as no temporary file is made under the metadata
-- file's own name, and from any state of the process:
-- where the prolog ends with an error, the tokens whose release was not asked for are those that
-- were held before;
-- where it ends without one, they are those held before, or one more; this one's record has the
-- name and the type with which the resource was made and the time just after the acquisition, and
-- `qrmi_ocs_acquired.tsv` of a spool directory was given the text of this record alone, and was
-- neither written, renamed nor removed after that.
pub run_with_config-no_token_lost :
    (s : System) (fl : Float64) (cfg : HookConfig) (job_owner : Text) (p : Process)
    → MakesTemporaries s
    → Outcome view
        (λ _. Served s (unreleased p.history))
        (Holds (unreleased p.history))
        (run_with_config s fl cfg job_owner p)
unfolding view
run_with_config-no_token_lost s fl cfg job_owner p fresh =
    (run_with_config-Triple s fl cfg job_owner fresh (unreleased p.history)).at p refl
