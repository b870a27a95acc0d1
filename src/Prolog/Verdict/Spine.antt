-- ===== src/Prolog/Verdict/Spine.antt =====
-- The errors of `runWithConfig` of src/cmd/qrmi-ocs-prolog-go/main.go, judged step by step.
use qpu_resource.Prelude.{
  if◌then◌else◌, ℕ, Bool, true, false, not, List, [], ◌∷◌, ◌≡◌, refl, sym, Option, none, some, Text,
  String,
}
use mathlib.Core.Path.{subst}
use qpu_resource.Errors.{
  or_fail, job_error, Error, errorf, wrapf, retry_error, hook_code, Result, ok, err, done, reply,
  is_requested_resource_not_found,
}
use qpu_resource.Hooks.{
  System, History, ResourceDef, Config, asked_accessible, acquired, created_resource, loaded_config,
  closed_resource, closed_def, closed_config, info,
}
use qpu_resource.Hooks.Exec.{lift, raise, call, ◌>>=◌, log, note}
use qpu_resource.Hooks.Codes.{KnownIn-reply}
use qpu_resource.Hooks.Sound.{Sound-note, Sound-lift, Sound-call}
use qpu_resource.Hooks.Keeps.{Keeps, Keeps-lift, Keeps-call}
use qpu_resource.Hooks.JobEnv.{open_job_env, close_job_env}
use qpu_resource.Hooks.JobEnv.Sound.{
  set_pairs-Sound, apply_rust_log-Sound, close_job_env-Sound, open_job_env-Sound,
}
use qpu_resource.Hooks.JobEnv.Quiet.{apply_rust_log-Keeps}
use qpu_resource.Qrmiocs.Grant.{parse_granted_backend}
use qpu_resource.Prolog.Request.{Float64}
use qpu_resource.Prolog.Scheduler.{check_host_offers, HookConfig}
use qpu_resource.Prolog.Acquire.{report_error, reporting, backend_pairs, keep_token}
use qpu_resource.Prolog.Run.{
  acquire_and_keep, with_def, with_config, with_job_env, serve, serve_request, run_with_config,
}
use qpu_resource.Prolog.Codes.{keep_token-Sound}
use qpu_resource.Prolog.Verdict.Commands.{
  check_host_offers-Judged, read_job_requested_resource-Judged, export_scheduler_job_env-Judged,
}
use qpu_resource.Prolog.Verdict.{
  Flags, flags, Verdict, Fresh, Early, Late, Blamed, BlamedEarly, of_host, of_qpu, plain_code,
}
use qpu_resource.Prolog.Verdict.Judged.{
  Judged, Judged-raise, Judged-leaf, Judged-call, Judged-deferring, Judged-bind, ByResult,
  Judged-then, Judged-from, Judged-worse, Judged-better,
}
use qpu_resource.Prolog.Verdict.Quiet.{
  pairs-Keeps, keep_token-Keeps, open_job_env-Keeps, close_job_env-Keeps, flags-IgnoresAppends,
}
use qpu_resource.Prolog.Verdict.Reported.{
  Unrefused, blamed_early, logged_info, closed_resource-Keeps, closed_def-Keeps,
  closed_config-Keeps, reported, reporting-Judged, step-Judged, wrapped_plain, blamed_job,
  wrapped_early,
}

module _ (s : System) (fl : Float64) (cfg : HookConfig) (owner : Text) where
  module _ (path backend : Text) (d : ResourceDef) where
    -- The QPU was asked whether it is accessible.
    abbrev Answer : Bool → Flags → Type 0
    Answer b v = (v.refused ≡ not b) × (v.tried ≡ true)

    abbrev Refused : Error → Flags → Type 0
    Refused e v = (v.refused ≡ true) × (v.tried ≡ true)

    blamed_qpu :
        (e : Error) (v : Flags) → (v.refused ≡ true) × (v.tried ≡ true) → Blamed (retry_error e) v
    unfolding hook_code
    blamed_qpu e v (r, t) = of_qpu r t

    asked-Judged : Judged Late (call asked_accessible s.is_accessible) Answer Refused
    unfolding flags
    asked-Judged =
        Judged-call Answer Refused Late asked_accessible s.is_accessible (asked_done)
          (λ x h (r, t). (refl, t))
      where
        asked_done :
            (b : Bool) (h : History)
            → Late (flags h)
            → Answer b (flags (asked_accessible (done b) ∷ h))
        asked_done true h (r, t) = (r, t)
        asked_done false h (r, t) = (refl, t)

    acquired-Judged : Judged Late (call acquired s.acquire) (λ _. Late) Refused
    unfolding flags
    acquired-Judged =
        Judged-call (λ _. Late) Refused Late acquired s.acquire (λ t h l. l)
          (λ x h (r, t). (refl, t))

    keep_token-Judged :
        (token : Text) → Judged Late (keep_token s path backend d token) (λ _. Unrefused) Blamed
    keep_token-Judged token =
        Judged-better (λ _. Late) (λ _. Unrefused) Blamed Late _ (λ _ v (r, t). r)
          (Judged-leaf Late false Blamed _ (keep_token-Sound s path backend d token)
            (keep_token-Keeps s path backend d token)
            λ e v known (r, t). plain_code (hook_code e) v known.code r)

    granted_or_not :
        (accessible : Bool)
        → Judged
            (Answer accessible)
            (if accessible
              then (do
                token ←
                    reporting s path
                      (λ e. retry_error (wrapf "acquire token for %s: %w" (backend ∷ []) e))
                      (call acquired s.acquire)
                keep_token s path backend d token)
              else report_error s path
                  (retry_error (errorf "backend %s is not accessible" (backend ∷ []))))
            (λ _. Unrefused)
            Blamed
    granted_or_not true =
        Judged-bind (λ _. Late) (λ _. Unrefused) Blamed Late _ _
          (reporting-Judged s path Late (λ _. Late) Refused _ _ acquired-Judged
            λ e v h. blamed_qpu _ v h)
          λ token. keep_token-Judged token
    granted_or_not false = reported s path (Answer false) (λ _. Unrefused) _ λ v h. blamed_qpu _ v h

    acquire_and_keep-Judged :
        Judged Late (acquire_and_keep s fl cfg owner path backend d) (λ _. Unrefused) Blamed
    unfolding acquire_and_keep
    acquire_and_keep-Judged =
        Judged-bind Answer (λ _. Unrefused) Blamed Late _ _
          (reporting-Judged s path Late Answer Refused _ _ asked-Judged λ e v h. blamed_qpu _ v h)
          granted_or_not

    -- A resource that cannot be made is an error of the host.
    abbrev Unmade : Error → Flags → Type 0
    Unmade e v = (hook_code e ≡ none) × (v.refused ≡ false)

    blamed_host : (o : Option ℕ) (v : Flags) → o ≡ none → v.refused ≡ false → Verdict o v
    blamed_host none v e r = of_host r
    blamed_host (some code) v e r = absurd (cc e)

    blamed_wrap :
        (f : String) (args : List Text) (e : Error) (v : Flags)
        → Unmade e v
        → Blamed (wrapf f args e) v
    unfolding hook_code
    blamed_wrap f args e v (n, r) = blamed_host (hook_code e) v n r

    created-Judged :
        Judged Fresh
          (call (created_resource backend d.kind) (λ h. s.new_resource h backend d.kind))
          (λ _. Late)
          Unmade
    unfolding flags hook_code
    created-Judged =
        Judged-call (λ _. Late) Unmade Fresh (created_resource backend d.kind)
          (λ h. s.new_resource h backend d.kind) (λ _ h (r, t). (r, refl)) (λ x h (r, t). (refl, r))

    with_def-Judged : Judged Early (with_def s fl cfg owner path backend d) (λ _. Unrefused) Blamed
    unfolding with_def
    with_def-Judged =
        Judged-bind (λ _. Early) (λ _. Unrefused) Blamed Early _ _
          (step-Judged s path _ _ (wrapped_plain _ _)
            (set_pairs-Sound false s path (backend_pairs s backend d.environments))
            (pairs-Keeps s path (backend_pairs s backend d.environments)))
          λ _.
            Judged-bind (λ _. Fresh) (λ _. Unrefused) Blamed Early _ _
              (reporting-Judged s path Early (λ _. Fresh) BlamedEarly _ _
                (Judged-from Fresh Early _ (λ _. Fresh) BlamedEarly (λ v (r, t, c). (r, t))
                  (export_scheduler_job_env-Judged s fl cfg owner path))
                λ e v h. wrapped_early _ _ e v h)
              λ _.
                Judged-bind (λ _. Late) (λ _. Unrefused) Blamed Fresh _ _
                  (reporting-Judged s path Fresh (λ _. Late) Unmade _ _ created-Judged
                    λ e v h. blamed_wrap _ _ e v h)
                  λ _.
                    Judged-deferring (λ _. Unrefused) Blamed Late true (note closed_resource) _
                      (Sound-note closed_resource) closed_resource-Keeps acquire_and_keep-Judged

  with_config-Judged :
      (path backend : Text) (config : Config)
      → Judged Early (with_config s fl cfg owner path backend config) (λ _. Unrefused) Blamed
  unfolding with_config
  with_config-Judged path backend config =
      Judged-bind (λ _. Early) (λ _. Unrefused) Blamed Early _ _
        (step-Judged s path _ _ (λ e v k h. blamed_job _ v h)
          (Sound-lift (reply (config backend)) (KnownIn-reply false (config backend)))
          (Keeps-lift flags (reply (config backend))))
        λ d.
          Judged-deferring (λ _. Unrefused) Blamed Early true (note closed_def) _
            (Sound-note closed_def) closed_def-Keeps (with_def-Judged path backend d)

  loaded-Keeps :
      Keeps flags (call (λ _. loaded_config cfg.config_path) (λ h. s.load_config h cfg.config_path))
  unfolding flags
  loaded-Keeps = Keeps-call flags _ (λ h. s.load_config h cfg.config_path) λ r h. refl

  with_job_env-Judged :
      (backend path : Text)
      → Judged Early (with_job_env s fl cfg owner backend path) (λ _. Unrefused) Blamed
  unfolding with_job_env
  with_job_env-Judged backend path =
      Judged-bind (λ _. Early) (λ _. Unrefused) Blamed Early _ _
        (step-Judged s path _ _ (wrapped_plain _ _)
          (apply_rust_log-Sound false s path cfg.log_level)
          (apply_rust_log-Keeps flags flags-IgnoresAppends s path cfg.log_level))
        λ _.
          Judged-bind (λ _. Early) (λ _. Unrefused) Blamed Early _ _
            (step-Judged s path _ _ (wrapped_plain _ _) (Sound-call _ _) loaded-Keeps)
            λ config.
              Judged-deferring (λ _. Unrefused) Blamed Early true (note closed_config) _
                (Sound-note closed_config) closed_config-Keeps
                (with_config-Judged path backend config)

  granted-Judged :
      (f : String) (args : List Text) (r : Result Text)
      → Judged Early (lift (or_fail r (λ e. job_error (wrapf f args e)))) (λ _. Early) Blamed
  unfolding lift
  granted-Judged f args (ok backend) = record { at = λ p w h. (h, w) }
  granted-Judged f args (err e) = record { at = λ p w h. (blamed_job (wrapf f args e) _ h, w) }

  opened-Judged : Judged Early (open_job_env s) (λ _. Early) Blamed
  opened-Judged =
      Judged-leaf Early false Blamed (open_job_env s) (open_job_env-Sound false s)
        (open_job_env-Keeps s) λ e v k (r, t, c). plain_code (hook_code e) v k.code r

  serve-Judged :
      (granted : Text) → Judged Early (serve s fl cfg owner granted) (λ _. Unrefused) Blamed
  unfolding serve
  serve-Judged granted =
      Judged-bind (λ _. Early) (λ _. Unrefused) Blamed Early _ _
        (granted-Judged _ _ (parse_granted_backend granted))
        λ backend.
          Judged-bind (λ _. Early) (λ _. Unrefused) Blamed Early _ _
            (Judged-worse (λ _. Early) BlamedEarly Early (check_host_offers s cfg backend) Blamed
              blamed_early (check_host_offers-Judged s cfg backend))
            λ _.
              Judged-bind (λ _. Early) (λ _. Unrefused) Blamed Early _ _ opened-Judged
                λ path.
                  Judged-deferring (λ _. Unrefused) Blamed Early true (close_job_env s path) _
                    (close_job_env-Sound true s path) (close_job_env-Keeps s path)
                    (with_job_env-Judged backend path)

  not_requested :
      (b : Bool) (e : Error)
      → Judged
          (BlamedEarly e)
          (if b
            then log info "job requests no %s resource; nothing to do" (cfg.resource_name ∷ [])
            else raise e)
          (λ _. Unrefused)
          Blamed
  not_requested true e =
      Judged-from Fresh (BlamedEarly e) _ (λ _. Unrefused) Blamed (λ v (b, f). f)
        (Judged-better (λ _. Fresh) (λ _. Unrefused) Blamed Fresh _ (λ _ v (r, t). r)
          (logged_info Fresh Blamed "job requests no %s resource; nothing to do"
            (cfg.resource_name ∷ [])))
  not_requested false e =
      Judged-worse (λ _. Unrefused) (λ x v. (x ≡ e) × BlamedEarly e v) (BlamedEarly e) (raise e)
        Blamed (λ x v (same, h). subst (λ y. Blamed y v) (sym same) h.0)
        (Judged-raise (BlamedEarly e) e (λ _. Unrefused))

  serve_request-Judged :
      (r : Result Text)
      → Judged
          (ByResult (λ _. Early) BlamedEarly r)
          (serve_request s fl cfg owner r)
          (λ _. Unrefused)
          Blamed
  serve_request-Judged (ok granted) = serve-Judged granted
  serve_request-Judged (err e) = not_requested (is_requested_resource_not_found e) e

  pub run_with_config-Judged : Judged Fresh (run_with_config s fl cfg owner) (λ _. Unrefused) Blamed
  unfolding run_with_config
  run_with_config-Judged =
      Judged-then (λ _. Early) BlamedEarly (λ _. Unrefused) Blamed Fresh _ _
        (read_job_requested_resource-Judged s cfg.resource_name cfg.qstat_path) serve_request-Judged
