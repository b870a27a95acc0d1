-- ===== src/Qrmiocs/LaunchEnv/Isolation.antt =====
-- The hook's environment does not depend on anything that the job submitted, except the four
-- variables that are validated.
use qpu_resource.Prelude.{
  false, ◌&&◌, List, [], ◌∷◌, ◌++◌, ◌≡◌, refl, ◌∙◌, ap, sym, arith, Option, some, Text, codes,
  text_eq, text_eq_sym, contains, if◌then◌else◌, inl, inr, Bool-cases,
}
use qpu_resource.Strings.{cut}
use qpu_resource.Dict.{Dict, lookup, insert, lookup-insert, value_of, or_empty}
use qpu_resource.Machine.{Machine}
use qpu_resource.Errors.{◌>>◌}
use qpu_resource.Qrmiocs.Sanitize.{key_of, is_loader_key, check_loader_env}
use qpu_resource.Qrmiocs.LaunchEnv.{
  LaunchSettings, env_values, job_values, validate, launch_values, launch_env,
}

-- The value of a variable after one more assignment, from its value before.
assigned : Text → Text → Option Text → Option Text
assigned k kv o = let r = cut b'=' kv in if r.found && text_eq r.before k then some r.after else o

-- The value of a variable after a list of assignments.
last_value : Text → List Text → Option Text → Option Text
last_value k [] o = o
last_value k (kv ∷ environ) o = last_value k environ (assigned k kv o)

lookup-env_values :
    (k : Text) (environ : List Text) (d : Dict Text)
    → lookup k (env_values environ d) ≡ last_value k environ (lookup k d)
unfolding env_values last_value assigned
lookup-env_values k [] d = refl
lookup-env_values k (kv ∷ environ) d = elim (Bool-cases (cut b'=' kv).found) [
  | inl found ↦ rw found (
      lookup-env_values k environ (insert (cut b'=' kv).before (cut b'=' kv).after d)
      ∙ rw lookup-insert)
  | inr absent ↦ rw absent (lookup-env_values k environ d)
]

assigned-skip :
    (k kv : Text) (o : Option Text) → text_eq (key_of kv) k ≡ false → assigned k kv o ≡ o
unfolding assigned
assigned-skip k kv o h = ground arith

last_value-skip :
    (k kv : Text) (pre post : List Text) (o : Option Text)
    → text_eq (key_of kv) k ≡ false
    → last_value k (pre ++ (kv ∷ post)) o ≡ last_value k (pre ++ post) o
unfolding last_value
last_value-skip k kv [] post o h = ap (last_value k post) (assigned-skip k kv o h)
last_value-skip k kv (x ∷ pre) post o h = last_value-skip k kv pre post _ h

value_of-skip :
    (k kv : Text) (pre post : List Text)
    → text_eq (key_of kv) k ≡ false
    → value_of k (env_values (pre ++ (kv ∷ post)) []) ≡ value_of k (env_values (pre ++ post) [])
unfolding value_of
value_of-skip k kv pre post h = ap or_empty (
    lookup-env_values k (pre ++ (kv ∷ post)) []
    ∙ last_value-skip k kv pre post (lookup k []) h
    ∙ sym (lookup-env_values k (pre ++ post) []))

abbrev pub job_keys : List Text
job_keys = codes "JOB_ID" ∷ codes "SGE_TASK_ID" ∷ codes "SGE_JOB_SPOOL_DIR" ∷ codes "TZ" ∷ []

other_keys :
    (k : Text)
    → contains job_keys k ≡ false
    → (text_eq k (codes "JOB_ID") ≡ false)
      × (text_eq k (codes "SGE_TASK_ID") ≡ false)
      × (text_eq k (codes "SGE_JOB_SPOOL_DIR") ≡ false)
      × (text_eq k (codes "TZ") ≡ false)
unfolding contains
other_keys k h = ground (
  arith,
  text_eq_sym k (codes "JOB_ID"),
  text_eq_sym k (codes "SGE_TASK_ID"),
  text_eq_sym k (codes "SGE_JOB_SPOOL_DIR"),
  text_eq_sym k (codes "TZ"),
)

job_values-skip :
    (kv : Text) (pre post : List Text)
    → contains job_keys (key_of kv) ≡ false
    → job_values (pre ++ (kv ∷ post)) ≡ job_values (pre ++ post)
unfolding job_values
job_values-skip kv pre post h =
    let (a, b, c, d) = other_keys (key_of kv) h in
    λ i. record {
      job_id = value_of-skip (codes "JOB_ID") kv pre post a i;
      task_id = value_of-skip (codes "SGE_TASK_ID") kv pre post b i;
      spool = value_of-skip (codes "SGE_JOB_SPOOL_DIR") kv pre post c i;
      tz = value_of-skip (codes "TZ") kv pre post d i;
    }

check_loader_env-skip :
    (kv : Text) (pre post : List Text)
    → is_loader_key (key_of kv) ≡ false
    → check_loader_env (pre ++ (kv ∷ post)) ≡ check_loader_env (pre ++ post)
unfolding check_loader_env
check_loader_env-skip kv [] post h = rw h
check_loader_env-skip kv (x ∷ pre) post h = rw (check_loader_env-skip kv pre post h)

-- A variable that is neither one of the four nor a loader variable changes nothing, wherever it
-- stands in the job's environment: the launcher succeeds or fails as without it, with the same result.
pub launch_env_ignores :
    (m : Machine) (s : LaunchSettings) (kv : Text) (pre post : List Text)
    → contains job_keys (key_of kv) ≡ false
    → is_loader_key (key_of kv) ≡ false
    → launch_env m (pre ++ (kv ∷ post)) s ≡ launch_env m (pre ++ post) s
unfolding launch_env
launch_env_ignores m s kv pre post h l = λ i.
    check_loader_env-skip kv pre post l i
    >> (validate s >> launch_values m s (job_values-skip kv pre post h i))
