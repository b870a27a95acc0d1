-- ===== src/Qrmiocs/LaunchEnv/Loader.antt =====
-- Loader variables: the launcher does not start a hook that would see one.
use qpu_resource.Prelude.{
  true, false, List, [], ◌∷◌, ◌≡◌, refl, Any, Text, inl, inr, some, Bool-cases,
}
use qpu_resource.Machine.{Machine}
use qpu_resource.Errors.{Error, err, exit_code, exit_job_error, job_error, errorf}
use qpu_resource.Qrmiocs.Sanitize.{key_of, is_loader_key, check_loader_env}
use qpu_resource.Qrmiocs.LaunchEnv.{LaunchSettings, launch_env}

check_loader_env-Any :
    (environ : List Text)
    → Any (λ kv. is_loader_key (key_of kv) ≡ true) environ
    → (e : Error) × (check_loader_env environ ≡ err e) × (exit_code (some e) ≡ exit_job_error)
unfolding check_loader_env exit_code
check_loader_env-Any [] h = elim h [ ]
check_loader_env-Any (kv ∷ environ) h = elim (Bool-cases (is_loader_key (key_of kv))) [
  | inl loader ↦
      rw loader (job_error (errorf "refusing to run: %s is set" (key_of kv ∷ [])), refl, refl)
  | inr other ↦ rw other (check_loader_env-Any environ (later other h))
]
  where
    later :
        is_loader_key (key_of kv) ≡ false
        → Any (λ kv'. is_loader_key (key_of kv') ≡ true) (kv ∷ environ)
        → Any (λ kv'. is_loader_key (key_of kv') ≡ true) environ
    later other (inl loader) = cc (other, loader)
    later other (inr rest) = rest

-- A loader variable anywhere in the job's environment makes the launcher fail, as an error of the
-- job (code 100), whatever the settings are.
pub launch_env-loader :
    (m : Machine) (environ : List Text) (s : LaunchSettings)
    → Any (λ kv. is_loader_key (key_of kv) ≡ true) environ
    → (e : Error) × (launch_env m environ s ≡ err e) × (exit_code (some e) ≡ exit_job_error)
unfolding launch_env
launch_env-loader m environ s h =
    let (e, refused, code) = check_loader_env-Any environ h in (e, rw refused refl, code)
