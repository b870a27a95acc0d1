-- ===== src/Prolog/Verdict/Commands.antt =====
-- The errors of the scheduler commands that src/cmd/qrmi-ocs-prolog-go/main.go runs.
use qpu_resource.Prelude.{
  Bool, true, false, List, [], ◌∷◌, ◌≡◌, refl, sym, Option, none, some, Text, String, codes, is_nil,
  has_char, if◌then◌else◌,
}
use mathlib.Core.Path.{subst}
use qpu_resource.Prelude.Int.{ℤ}
use qpu_resource.FilePath.{join_path, dir}
use qpu_resource.Errors.{
  Error, errorf, wrapf, job_error, hook_code, Result, ok, err, reply, or_fail,
  is_requested_resource_not_found,
}
use qpu_resource.Trusted.{trusted_executable}
use qpu_resource.Hooks.{System, ran}
use qpu_resource.Hooks.Exec.{◌>>=◌, Exec, pure, raise, lift, call, getenv}
use qpu_resource.Hooks.Codes.{
  is_known, IsKnown, KnownIn, KnownIn-reply, KnownIn-or_fail, IsKnown-wrapf,
}
use qpu_resource.Hooks.Sound.{Sound, Sound-lift, Sound-getenv}
use qpu_resource.Hooks.Keeps.{Keeps, Keeps-lift, Keeps-getenv}
use qpu_resource.Hooks.JobEnv.Sound.{set_pairs-Sound}
use qpu_resource.Prolog.Request.{Float64, parse_job_requested_resource, parse_granted_slots}
use qpu_resource.Prolog.Scheduler.{
  HookConfig, scheduler_job_id, scheduler_job_uid, retry_run, run_scheduler_command,
  read_job_requested_resource, ask_host, show_host, short_name, check_host_offers, slots_of,
  read_granted_slots,
}
use qpu_resource.Prolog.Run.{granted_slots, export_scheduler_job_env}
use qpu_resource.Prolog.Codes.{
  trusted_executable-KnownIn, parse_job_requested_resource-KnownIn, parse_granted_slots-KnownIn,
  scheduler_job_uid-KnownIn, scheduler_job_id-Sound,
}
use qpu_resource.Prolog.Verdict.{
  Flags, flags, Fresh, Early, BlamedEarly, of_scheduler, of_job, plain_code,
}
use qpu_resource.Prolog.Verdict.Judged.{
  Judged, ByResult, Judged-pure, Judged-raise, Judged-leaf, Judged-call, Judged-or_else,
  Judged-bind, Judged-worse, Judged-wrapping, Judged-then, Judged-from,
}
use qpu_resource.Prolog.Verdict.Quiet.{pairs-Keeps}

known_wrap :
    (f : String) (args : List Text) (e : Error)
    → IsKnown false e
    → is_known false (hook_code (wrapf f args e)) ≡ true
known_wrap f args e k = (IsKnown-wrapf {c = false} f args e k).code

job_id-Keeps : Keeps flags scheduler_job_id
unfolding scheduler_job_id getenv
job_id-Keeps = record { at = λ p. refl }

-- An action whose errors have no code.
pub codeless {ℓ} :
    {A : Type ℓ} (before : Flags → Type 0) (m : Exec A)
    → ((v : Flags) → before v → Fresh v)
    → Sound false m
    → Keeps flags m
    → Judged before m (λ _. before) BlamedEarly
codeless before m fresh s k =
    Judged-leaf before false BlamedEarly m s k
      λ e v known h. (plain_code (hook_code e) v known.code (fresh v h).0, fresh v h)

pub lifted {ℓ} :
    {A : Type ℓ} (before : Flags → Type 0) (r : Result A)
    → ((v : Flags) → before v → Fresh v)
    → KnownIn false r
    → Judged before (lift r) (λ _. before) BlamedEarly
lifted before r fresh k = codeless before (lift r) fresh (Sound-lift r k) (Keeps-lift flags r)

before_resource : (v : Flags) → Early v → Fresh v
before_resource v (r, t, _) = (r, t)

-- An error that is raised, where it is to blame.
raised {ℓ} :
    {A : Type ℓ} (before : Flags → Type 0) (e : Error) (good : A → Flags → Type 0)
    → ((v : Flags) → before v → BlamedEarly e v)
    → Judged before (raise e) good BlamedEarly
raised before e good blame =
    Judged-worse good (λ x v. (x ≡ e) × before v) before (raise e) BlamedEarly
      (λ x v (same, h). subst (λ y. BlamedEarly y v) (sym same) (blame v h))
      (Judged-raise before e good)

module _ (s : System) where
  abbrev RunFailed : Error → Flags → Type 0
  RunFailed e v = (v.refused ≡ false) × (v.tried ≡ false) × (v.command_failed ≡ true)

  blamed_run :
      (path : Text) (e : Error) (v : Flags) → RunFailed e v → BlamedEarly (retry_run s path e) v
  unfolding hook_code
  blamed_run path e v (r, t, c) = (of_scheduler r t c, (r, t))

  ran-Judged :
      (path : Text) (args : List Text)
      → Judged Fresh (call (ran path args) (λ h. s.run h path args)) (λ _. Early) RunFailed
  unfolding flags
  ran-Judged path args =
      Judged-call (λ _. Early) RunFailed Fresh (ran path args) (λ h. s.run h path args)
        (λ _ h (r, t). (r, t, refl)) (λ x h (r, t). (r, t, refl))

  run_scheduler_command-Judged :
      (path : Text) (args : List Text)
      → Judged Fresh (run_scheduler_command s path args) (λ _. Early) BlamedEarly
  unfolding run_scheduler_command
  run_scheduler_command-Judged path args =
      Judged-bind (λ _. Fresh) (λ _. Early) BlamedEarly Fresh _ _
        (lifted Fresh (trusted_executable s.machine path) (λ v h. h)
          (trusted_executable-KnownIn s.machine path))
        λ trusted.
          Judged-wrapping (λ _. Early) RunFailed BlamedEarly Fresh (retry_run s trusted) _
            (blamed_run trusted) (ran-Judged trusted args)

  named_job :
      (b : Bool) (name path job_id : Text)
      → Judged Fresh
          (if b then raise (errorf "JOB_ID is unset" []) else (do
            out ← run_scheduler_command s path (codes "-j" ∷ job_id ∷ [])
            lift (parse_job_requested_resource out name)))
          (λ _. Early)
          BlamedEarly
  unfolding hook_code
  named_job true name path job_id =
      raised Fresh (errorf "JOB_ID is unset" []) (λ _. Early)
        λ v (r, t). (plain_code none v refl r, (r, t))
  named_job false name path job_id =
      Judged-bind (λ _. Early) (λ _. Early) BlamedEarly Fresh _ _
        (run_scheduler_command-Judged path (codes "-j" ∷ job_id ∷ []))
        λ out.
          lifted Early (parse_job_requested_resource out name) before_resource
            (parse_job_requested_resource-KnownIn out name)

  pub read_job_requested_resource-Judged :
      (name path : Text)
      → Judged Fresh (read_job_requested_resource s name path) (λ _. Early) BlamedEarly
  unfolding read_job_requested_resource
  read_job_requested_resource-Judged name path =
      Judged-bind (λ _. Fresh) (λ _. Early) BlamedEarly Fresh _ _
        (codeless Fresh (getenv (codes "JOB_ID")) (λ v h. h) (Sound-getenv (codes "JOB_ID"))
          (Keeps-getenv flags (codes "JOB_ID")))
        λ job_id. named_job (is_nil job_id) name path job_id

  ask_host-Judged :
      (path host : Text) → Judged Fresh (ask_host s path host) (λ _. Early) BlamedEarly
  ask_host-Judged path host =
      Judged-bind (λ _. Early) (λ _. Early) BlamedEarly Fresh _ _
        (run_scheduler_command-Judged path (codes "-se" ∷ host ∷ []))
        λ out. Judged-pure Early (host, out) BlamedEarly

  asked_again :
      (b : Bool) (path host : Text) (e : Error)
      → Judged
          (BlamedEarly e)
          (if b then ask_host s path (short_name s host) else raise e)
          (λ _. Early)
          BlamedEarly
  asked_again true path host e =
      Judged-from Fresh (BlamedEarly e) _ (λ _. Early) BlamedEarly (λ v (b, f). f)
        (ask_host-Judged path (short_name s host))
  asked_again false path host e = raised (BlamedEarly e) e (λ _. Early) λ v h. h

  show_host-Judged :
      (path host : Text) → Judged Fresh (show_host s path host) (λ _. Early) BlamedEarly
  unfolding show_host
  show_host-Judged path host =
      Judged-or_else (λ _. Early) BlamedEarly BlamedEarly _ Fresh (ask_host s path host)
        (ask_host-Judged path host) λ e. asked_again (has_char b'.' host) path host e

  offered_or_not :
      (b : Bool) (f : String) (args : List Text)
      → Judged Early
          (if b then pure (tt {0}) else raise {A = Unit {0}} (job_error (errorf f args)))
          (λ _. Early)
          BlamedEarly
  unfolding hook_code
  offered_or_not true f args = Judged-pure Early (tt {0}) BlamedEarly
  offered_or_not false f args =
      raised Early (job_error (errorf f args)) (λ _. Early) λ v (r, t, c). (of_job r t c, (r, t))

  pub check_host_offers-Judged :
      (cfg : HookConfig) (backend : Text)
      → Judged Early (check_host_offers s cfg backend) (λ _. Early) BlamedEarly
  unfolding check_host_offers
  check_host_offers-Judged cfg backend =
      Judged-bind (λ _. Early) (λ _. Early) BlamedEarly Early _ _
        (lifted Early (or_fail (reply s.hostname) (wrapf "read host name: %w" [])) before_resource (
          KnownIn-or_fail (reply s.hostname) _ (λ e k. IsKnown-wrapf _ _ e k)
            (KnownIn-reply false s.hostname)))
        λ host.
          Judged-bind (λ _. Early) (λ _. Early) BlamedEarly Early _ _
            (Judged-from Fresh Early _ (λ _. Early) BlamedEarly before_resource
              (show_host-Judged (join_path (dir cfg.qstat_path) (codes "qconf")) host))
            λ shown. offered_or_not _ _ _

  slots-Judged :
      (fl : Float64) (name : Text) (r : Result Text)
      → Judged (ByResult (λ _. Early) BlamedEarly r) (slots_of s fl name r) (λ _. Fresh) BlamedEarly
  slots-Judged fl name (ok raw) =
      Judged-bind (λ _. Early) (λ _. Fresh) BlamedEarly Early _ _
        (Judged-wrapping (λ _. Early) (λ e v. IsKnown false e × Fresh v) BlamedEarly Early _ _
          (λ e v (k, (r, t)).
            (plain_code (hook_code (wrapf _ _ e)) v (known_wrap _ _ e k) r, (r, t)))
          (Judged-leaf Early false (λ e v. IsKnown false e × Fresh v)
            (lift (parse_granted_slots fl raw))
            (Sound-lift (parse_granted_slots fl raw) (parse_granted_slots-KnownIn fl raw))
            (Keeps-lift flags (parse_granted_slots fl raw)) λ e v k h. (k, before_resource v h)))
        λ slots.
          Judged-from Fresh Early _ (λ _. Fresh) BlamedEarly before_resource
            (Judged-pure Fresh (some slots) BlamedEarly)
  slots-Judged fl name (err e) = no_slots (is_requested_resource_not_found e) e
    where
      no_slots :
          (b : Bool) (e : Error)
          → Judged
              (BlamedEarly e)
              (if b then pure {A = Option ℤ} none else raise e)
              (λ _. Fresh)
              BlamedEarly
      no_slots true e =
          Judged-from Fresh (BlamedEarly e) _ (λ _. Fresh) BlamedEarly (λ v (b, f). f)
            (Judged-pure Fresh none BlamedEarly)
      no_slots false e = raised (BlamedEarly e) e (λ _. Fresh) λ v h. h

  module _ (fl : Float64) (cfg : HookConfig) (owner : Text) where
    granted_slots_given :
        (b : Bool)
        → Judged Fresh
            (if b
              then pure none
              else read_granted_slots s fl cfg.slots_resource_name cfg.qstat_path)
            (λ _. Fresh)
            BlamedEarly
    unfolding read_granted_slots
    granted_slots_given true = Judged-pure Fresh none BlamedEarly
    granted_slots_given false =
        Judged-then (λ _. Early) BlamedEarly (λ _. Fresh) BlamedEarly Fresh _ _
          (read_job_requested_resource-Judged cfg.slots_resource_name cfg.qstat_path)
          (slots-Judged fl cfg.slots_resource_name)

    pub export_scheduler_job_env-Judged :
        (path : Text)
        → Judged Fresh (export_scheduler_job_env s fl cfg owner path) (λ _. Fresh) BlamedEarly
    unfolding export_scheduler_job_env granted_slots
    export_scheduler_job_env-Judged path =
        Judged-bind (λ _. Fresh) (λ _. Fresh) BlamedEarly Fresh _ _
          (lifted Fresh (scheduler_job_uid s.machine owner) (λ v h. h)
            (scheduler_job_uid-KnownIn s.machine owner))
          λ uid.
            Judged-bind (λ _. Fresh) (λ _. Fresh) BlamedEarly Fresh _ _
              (codeless Fresh scheduler_job_id (λ v h. h) scheduler_job_id-Sound job_id-Keeps)
              λ job_id.
                Judged-bind (λ _. Fresh) (λ _. Fresh) BlamedEarly Fresh _ _
                  (granted_slots_given (is_nil cfg.slots_resource_name))
                  λ slots.
                    codeless Fresh _ (λ v h. h) (set_pairs-Sound false s path _)
                      (pairs-Keeps s path _)
