-- ===== src/Prolog/Main/Exit.antt =====
-- The codes that `main` of src/cmd/qrmi-ocs-prolog-go/main.go exits with.
use qpu_resource.Prelude.{ℕ, true, false, refl, ◌≡◌, List, [], ◌∷◌, Text, Option}
use qpu_resource.Prelude.{Bool, not}
use qpu_resource.Errors.{Error, guard, ◌>>=◌}
use qpu_resource.Qrmiocs.Sanitize.{is_loader_key, key_of}
use qpu_resource.Dict.{Dict}
use qpu_resource.Machine.{Machine}
use qpu_resource.Errors.{
  Result, ok, err, or_fail, job_error, exit_code, code_or_host_error, hook_code,
}
use qpu_resource.Qrmiocs.Sanitize.{check_loader_env, clean_env, set_all, reset_process_env}
use qpu_resource.Hooks.{System}
use qpu_resource.Hooks.Codes.{KnownIn, known_rules}
use qpu_resource.Hooks.JobEnv.Sound.{setenv-KnownIn}
use qpu_resource.Prolog.Request.{Float64}
use qpu_resource.Prolog.Verdict.{
  plain_code, Blamed, Flags, flags, Verdict, of_host, of_qpu, of_scheduler, of_job,
}
use qpu_resource.Prolog.Verdict.Judged.{ByResult}
use qpu_resource.Prolog.Verdict.Reported.{Unrefused}
use qpu_resource.Prolog.Verdict.Spine.{run_with_config-Judged}
use qpu_resource.Prolog.Scheduler.{HookConfig}
use qpu_resource.Prolog.Run.{run_with_config}
use qpu_resource.Prolog.Main.{
  parse_hook_args, run_parsed, run_reset, prolog_main, failure_of, process_of,
}

-- A result before any call: a value, or an error that is judged by the empty history.
abbrev ResetIn {ℓ} : {A : Type ℓ} → Result A → Type 0
ResetIn (ok a) = Unit
ResetIn (err e) = Verdict (hook_code e) (flags [])

job_error-Verdict : (e : Error) → Verdict (hook_code (job_error e)) (flags [])
unfolding hook_code flags
job_error-Verdict e = of_job refl refl refl

guarded {ℓ} :
    {A : Type ℓ} (b : Bool) (e : Error) (r : Result A)
    → ResetIn r
    → ResetIn (guard b (job_error e) >>= λ _. r)
guarded true e r k = k
guarded false e r k = job_error-Verdict e

check_loader_env-ResetIn : (environ : List Text) → ResetIn (check_loader_env environ)
unfolding check_loader_env
check_loader_env-ResetIn [] = tt
check_loader_env-ResetIn (kv ∷ environ) =
    guarded (not (is_loader_key (key_of kv))) _ (check_loader_env environ)
      (check_loader_env-ResetIn environ)

set_all-KnownIn : (environ : List Text) (env : Dict Text) → KnownIn false (set_all environ env)
unfolding set_all
set_all-KnownIn [] env = tt
set_all-KnownIn (kv ∷ environ) env = search (known_rules, setenv-KnownIn, set_all-KnownIn environ)

plain-ResetIn {ℓ} : {A : Type ℓ} (r : Result A) → KnownIn false r → ResetIn r
unfolding flags
plain-ResetIn (ok a) k = tt
plain-ResetIn (err e) k = plain_code (hook_code e) (flags []) k.code refl

or_job_error-ResetIn : {A : Type 0} (r : Result A) → ResetIn (or_fail r job_error)
or_job_error-ResetIn (ok a) = tt
or_job_error-ResetIn (err e) = job_error-Verdict e

ResetIn-bind {ℓ κ} :
    {A : Type ℓ} {B : Type κ} (r : Result A) (f : A → Result B)
    → ResetIn r
    → ((a : A) → ResetIn (f a))
    → ResetIn (r >>= f)
ResetIn-bind (ok a) f k h = h a
ResetIn-bind (err e) f k h = k

reset_process_env-ResetIn :
    (order : Dict Text → Dict Text) (m : Machine) (environ : List Text)
    → ResetIn (reset_process_env order m environ)
unfolding reset_process_env
reset_process_env-ResetIn order m environ =
    ResetIn-bind (check_loader_env environ) _ (check_loader_env-ResetIn environ) λ _.
      ResetIn-bind (or_fail (clean_env order m environ) job_error) _
        (or_job_error-ResetIn (clean_env order m environ))
        λ env. plain-ResetIn (set_all env []) (set_all-KnownIn env [])

-- The exit code, by what the calls show: 0 where the job goes on and 1 for the host's error, both
-- without a refusal by the QPU; 99 for a reschedule, after a refusal or, before a resource was made,
-- after a scheduler command that failed; 100 for the job's error, before a resource was made and
-- without such a failure.
pub data IsHookCode : ℕ → Flags → Type 0 where
  goes_on : {v : Flags} → v.refused ≡ false → IsHookCode 0 v
  host_error : {v : Flags} → v.refused ≡ false → IsHookCode 1 v
  refused_by_qpu : {v : Flags} → v.refused ≡ true → v.tried ≡ true → IsHookCode 99 v
  reschedule :
      {v : Flags} → v.refused ≡ false → v.tried ≡ false → v.command_failed ≡ true → IsHookCode 99 v
  error_of_job :
      {v : Flags}
      → v.refused ≡ false
      → v.tried ≡ false
      → v.command_failed ≡ false
      → IsHookCode 100 v

exit_of : (o : Option ℕ) (v : Flags) → Verdict o v → IsHookCode (code_or_host_error o) v
exit_of _ v (of_host r) = host_error r
exit_of _ v (of_qpu r t) = refused_by_qpu r t
exit_of _ v (of_scheduler r t c) = reschedule r t c
exit_of _ v (of_job r t c) = error_of_job r t c

exit_code-IsHookCode :
    (r : Result (Unit {0})) (v : Flags)
    → ByResult (λ _. Unrefused) Blamed r v
    → IsHookCode (exit_code (failure_of r)) v
unfolding exit_code
exit_code-IsHookCode (ok _) v h = goes_on h
exit_code-IsHookCode (err e) v h = exit_of (hook_code e) v h

module _ (order : Dict Text → Dict Text) (s : System) (fl : Float64) where
  run_parsed-IsHookCode :
      (env : Dict Text) (r : Result (HookConfig × Text))
      → IsHookCode (run_parsed order s fl env r).0 (flags (run_parsed order s fl env r).1)
  unfolding flags
  run_parsed-IsHookCode env (err e) = host_error refl
  run_parsed-IsHookCode env (ok (cfg, owner)) =
      let p = process_of order s fl env in
      let (r, q) = run_with_config s fl cfg owner p in
      exit_code-IsHookCode r (flags q.history)
        ((run_with_config-Judged s fl cfg owner).at p tt (refl, refl)).0

  run_reset-IsHookCode :
      (args : List Text) (r : Result (Dict Text))
      → ResetIn r
      → IsHookCode (run_reset order s fl args r).0 (flags (run_reset order s fl args r).1)
  unfolding flags
  run_reset-IsHookCode args (ok env) k = run_parsed-IsHookCode env (parse_hook_args args)
  run_reset-IsHookCode args (err e) k = exit_code-IsHookCode (err e) (flags []) k

  -- Whatever its environment, its arguments and the replies of the system are, the prolog exits with
  -- 99 if the QPU was not accessible, gave no token or could not be asked for either; else with 0,
  -- with 1, or, where no resource was made and this was not tried, with 99, and then the scheduler
  -- command that was run last has failed, or with 100, and then it has not, if there was one.
  pub prolog_main-IsHookCode :
      (environ args : List Text)
      → IsHookCode
          (prolog_main order s fl environ args).0
          (flags (prolog_main order s fl environ args).1)
  unfolding prolog_main
  prolog_main-IsHookCode environ args =
      run_reset-IsHookCode args (reset_process_env order s.machine environ)
        (reset_process_env-ResetIn order s.machine environ)
