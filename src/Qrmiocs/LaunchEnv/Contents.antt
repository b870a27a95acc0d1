-- ===== src/Qrmiocs/LaunchEnv/Contents.antt =====
-- What the launcher's environment holds, and how the launcher fails.
use qpu_resource.Prelude.{
  true, false, not, ◌&&◌, ◌||◌, List, [], ◌∷◌, ◌≡◌, refl, arith, none, some, Text, codes, text_eq,
  contains, inl, inr, Bool-cases, All, All-append, Any, Any-map, is_nil, ◌++◌, String, ◌⊎◌, ◌∙◌,
  if◌then◌else◌,
}
use qpu_resource.Strings.{cut}
use qpu_resource.Decimal.{is_number}
use qpu_resource.Machine.{Machine}
use qpu_resource.Errors.{Error, ok, Result-cases}
use qpu_resource.Qrmiocs.Sanitize.{
  assign, key_of, check_loader_env, task_pattern, has_dotdot, tz_pattern, fixed_env, hook_user_home,
}
use qpu_resource.Qrmiocs.Spool.{check_spool_dir}
use qpu_resource.Qrmiocs.Spool.Own.{IsOwnSpool, check_spool_dir-IsOwnSpool}
use qpu_resource.Qrmiocs.LaunchEnv.{
  LaunchSettings, JobValues, job_values, validate, spool_roots_or_root, if_set, time_zone,
  find_spool_root, hook_env, launch_values, launch_env, env_values,
}
use qpu_resource.Dict.{value_of}

-- The variables that a hook can see.
abbrev pub hook_keys : List Text
hook_keys =
    codes "JOB_ID"
    ∷ codes "SGE_JOB_SPOOL_DIR"
    ∷ codes "SGE_ROOT"
    ∷ codes "SGE_CELL"
    ∷ codes "SGE_TASK_ID"
    ∷ codes "SGE_QMASTER_PORT"
    ∷ codes "SGE_EXECD_PORT"
    ∷ codes "TZ"
    ∷ codes "PATH"
    ∷ codes "HOME"
    ∷ codes "LANG"
    ∷ codes "LC_ALL"
    ∷ []

abbrev pub IsHookVariable : Text → Type 0
IsHookVariable kv = contains hook_keys (key_of kv) ≡ true

if_set-All : (k v : Text) → IsHookVariable (assign k v) → All IsHookVariable (if_set k v)
if_set-All k [] h = tt
if_set-All k (c ∷ v) h = (h, tt)

time_zone-All : (tz : Text) → All IsHookVariable (time_zone tz)
unfolding time_zone contains cut text_eq
time_zone-All tz = elim (Bool-cases (tz_pattern tz && not (has_dotdot tz))) [
  | inl kept ↦ rw kept (refl, tt)
  | inr dropped ↦ rw dropped tt
]

hook_env-All :
    (m : Machine) (s : LaunchSettings) (v : JobValues) → All IsHookVariable (hook_env m s v)
unfolding hook_env contains cut text_eq
hook_env-All m s v = (
  refl,
  (
    refl,
    (
      refl,
      (
        refl,
        All-append IsHookVariable _ _ (if_set-All (codes "SGE_TASK_ID") v.task_id refl) (
            All-append IsHookVariable _ _
              (if_set-All (codes "SGE_QMASTER_PORT") s.qmaster_port refl)
              (All-append IsHookVariable _ _ (if_set-All (codes "SGE_EXECD_PORT") s.execd_port refl)
                (All-append IsHookVariable _ (fixed_env m) (time_zone-All v.tz)
                  (refl, (refl, (refl, (refl, tt))))))),
      ),
    ),
  ),
)

launch_values_inv :
    (m : Machine) (s : LaunchSettings) (v : JobValues) {out : List Text}
    → launch_values m s v ≡ ok out
    → (is_number v.job_id ≡ true)
      × ((is_nil v.task_id || task_pattern v.task_id) ≡ true)
      × (find_spool_root m none (spool_roots_or_root s) v ≡ ok tt)
      × (out ≡ hook_env m s v)
unfolding launch_values
launch_values_inv m s v h = ground arith

launch_env_inv :
    (m : Machine) (environ : List Text) (s : LaunchSettings) {out : List Text}
    → launch_env m environ s ≡ ok out
    → (check_loader_env environ ≡ ok tt)
      × (validate s ≡ ok tt)
      × (launch_values m s (job_values environ) ≡ ok out)
unfolding launch_env
launch_env_inv m environ s h = ground arith

-- The environment that a successful launch gives to the hook holds no variable but the twelve of
-- `hook_keys`.
pub launch_env-IsHookVariable :
    (m : Machine) (environ : List Text) (s : LaunchSettings) {out : List Text}
    → launch_env m environ s ≡ ok out
    → All IsHookVariable out
launch_env-IsHookVariable m environ s h =
    let (_, _, launched) = launch_env_inv m environ s h in
    let (_, _, _, e) = launch_values_inv m s (job_values environ) launched in
    rw e (hook_env-All m s (job_values environ))

module _ (m : Machine) (v : JobValues) where
  abbrev Fits : Text → Type 0
  Fits root = check_spool_dir m v.spool root v.job_id v.task_id ≡ ok tt

  find_next-Any :
      (last : Error) (roots : List Text)
      → find_spool_root m (some last) roots v ≡ ok tt
      → Any Fits roots
  unfolding find_spool_root
  find_next-Any last [] h = absurd (cc h)
  find_next-Any last (root ∷ roots) h =
      elim (Result-cases (check_spool_dir m v.spool root v.job_id v.task_id)) [
        | inl (_, fits) ↦ inl fits
        | inr (e, differs) ↦ inr (find_next-Any e roots (rw (differs, find_spool_root) at h))
      ]

  find_spool_root-Any :
      (roots : List Text)
      → is_nil roots ≡ false
      → find_spool_root m none roots v ≡ ok tt
      → Any Fits roots
  unfolding find_spool_root
  find_spool_root-Any [] n h = absurd (cc n)
  find_spool_root-Any (root ∷ roots) n h =
      elim (Result-cases (check_spool_dir m v.spool root v.job_id v.task_id)) [
        | inl (_, fits) ↦ inl fits
        | inr (e, differs) ↦ inr (find_next-Any e roots (rw (differs, find_spool_root) at h))
      ]

spool_roots_or_root-is_nil : (s : LaunchSettings) → is_nil (spool_roots_or_root s) ≡ false
spool_roots_or_root-is_nil s = elim (Bool-cases (is_nil s.spool_roots)) [
  | inl none_given ↦ rw none_given
  | inr given ↦ rw (given, given)
]

-- The last value that the environment gives a key; the empty text where it gives none.
abbrev pub given : List Text → String → Text
given environ key = value_of (codes key) (env_values environ [])

-- A variable, where its value is not empty.
abbrev pub unless_empty : Text → Text → List Text
unless_empty name value = if is_nil value then [] else (name ++ value) ∷ []

-- The environment of a hook, variable by variable.
abbrev pub expected_env : Machine → LaunchSettings → List Text → List Text
expected_env m s environ =
    ((codes "JOB_ID=" ++ given environ "JOB_ID")
      ∷ (codes "SGE_JOB_SPOOL_DIR=" ++ given environ "SGE_JOB_SPOOL_DIR")
      ∷ (codes "SGE_ROOT=" ++ s.sge_root)
      ∷ (codes "SGE_CELL=" ++ s.sge_cell)
      ∷ [])
    ++ (unless_empty (codes "SGE_TASK_ID=") (given environ "SGE_TASK_ID")
        ++ (unless_empty (codes "SGE_QMASTER_PORT=") s.qmaster_port
            ++ (unless_empty (codes "SGE_EXECD_PORT=") s.execd_port
                ++ ((if tz_pattern (given environ "TZ") && not (has_dotdot (given environ "TZ"))
                      then (codes "TZ=" ++ given environ "TZ") ∷ []
                      else [])
                    ++ (codes "PATH=/usr/sbin:/usr/bin:/sbin:/bin"
                        ∷ (codes "HOME=" ++ hook_user_home m)
                        ∷ codes "LANG=C"
                        ∷ codes "LC_ALL=C"
                        ∷ [])))))

-- What a successful launch guarantees.
pub record IsLaunched (m : Machine) (s : LaunchSettings) (environ : List Text) (out : List Text)
    : Type 0 where
  pub job_number : is_number (given environ "JOB_ID") ≡ true
  pub task_named :
      (given environ "SGE_TASK_ID" ≡ []) ⊎ (task_pattern (given environ "SGE_TASK_ID") ≡ true)
  pub own_spool :
      Any
        (λ root.
          IsOwnSpool m
            (given environ "SGE_JOB_SPOOL_DIR")
            root
            (given environ "JOB_ID")
            (given environ "SGE_TASK_ID"))
        (spool_roots_or_root s)
  pub environment : out ≡ expected_env m s environ

task_of :
    (task : Text)
    → (is_nil task || task_pattern task) ≡ true
    → (task ≡ []) ⊎ (task_pattern task ≡ true)
task_of [] h = inl refl
task_of (c ∷ cs) h = inr h

hook_env-expected :
    (m : Machine) (s : LaunchSettings) (environ : List Text)
    → hook_env m s (job_values environ) ≡ expected_env m s environ
unfolding hook_env time_zone job_values hook_user_home
hook_env-expected m s environ = refl

-- If the launcher starts the hook, the last value of `JOB_ID` is a number, that of `SGE_TASK_ID` is
-- empty or has the form of a task id, that of `SGE_JOB_SPOOL_DIR` is the job's own directory below a
-- configured root, and the hook's environment consists of exactly these: the job id and the spool
-- directory; the root and the cell of the settings; the task id and the settings' two ports where
-- they are not empty; the job's `TZ` where it has the form of a time zone and no `..`; and the
-- four fixed variables.
pub launch_env-IsLaunched :
    (m : Machine) (environ : List Text) (s : LaunchSettings) {out : List Text}
    → launch_env m environ s ≡ ok out
    → IsLaunched m s environ out
unfolding job_values
launch_env-IsLaunched m environ s h =
    let v = job_values environ in
    let (_, _, launched) = launch_env_inv m environ s h in
    let (job, task, found, e) = launch_values_inv m s v launched in
    record {
      job_number = job;
      task_named = task_of v.task_id task;
      own_spool =
          Any-map (λ root fits. check_spool_dir-IsOwnSpool m v.spool root v.job_id v.task_id fits) _
            (find_spool_root-Any m v _ (spool_roots_or_root-is_nil s) found);
      environment = e ∙ hook_env-expected m s environ;
    }
