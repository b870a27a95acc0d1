-- ===== src/Qrmiocs/Sanitize.antt =====
-- src/internal/qrmiocs/sanitize.go: the environment that a hook may see. `CleanEnv` and
-- `ResetProcessEnv` are here; `LaunchEnv`, for the launcher, is in LaunchEnv.
-- The order in which Go ranges over a map is the parameter `order`.
pub mod Clean
use qpu_resource.Prelude.{
  ℕ, Bool, false, not, ◌&&◌, ◌||◌, List, [], ◌∷◌, ◌++◌, map, Option, none, some, Text, codes,
  length, leb, ◌==◌, text_eq, if◌then◌else◌, is_nil, all, has_char,
}
use qpu_resource.Strings.{within, Cut, cut, has_prefix, cut_prefix, contains_text}
use qpu_resource.Decimal.{format_nat, is_number}
use qpu_resource.Dict.{Dict, lookup, insert}
use qpu_resource.FilePath.{is_abs}
use qpu_resource.Machine.{Machine}
use qpu_resource.Errors.{
  errorf, wrapf, job_error, Result, ok, err, ◌>>=◌, ◌>>◌, guard, or_fail, done, fails,
}

abbrev alnum : ℕ → Bool
alnum c = within b'A' b'Z' c || within b'a' b'z' c || within b'0' b'9' c

unfoldable pub path_char : ℕ → Bool
path_char c = alnum c || c == b'.' || c == b'_' || c == b'/' || c == b'-'

unfoldable pub cell_char : ℕ → Bool
cell_char c = alnum c || c == b'.' || c == b'_' || c == b'-'

unfoldable pub tz_char : ℕ → Bool
tz_char c = alnum c || c == b'_' || c == b'+' || c == b':' || c == b'/' || c == b'.' || c == b'-'

-- `^[0-9]+$` is `is_number` of Decimal. `^([0-9]+|undefined)$`:
unfoldable pub task_pattern : Text → Bool
unfolding is_number text_eq
task_pattern s = is_number s || text_eq s (codes "undefined")

-- `^/[A-Za-z0-9._/-]+$`.
unfoldable pub dir_pattern : Text → Bool
unfolding path_char
dir_pattern [] = false
dir_pattern (c ∷ s) = c == b'/' && not (is_nil s) && all path_char s

-- `^[A-Za-z0-9._-]+$`.
unfoldable pub cell_pattern : Text → Bool
unfolding cell_char
cell_pattern s = not (is_nil s) && all cell_char s

-- `^[A-Za-z0-9_+:/.-]{1,64}$`.
unfoldable pub tz_pattern : Text → Bool
unfolding tz_char
tz_pattern s = not (is_nil s) && leb (length s) 64 && all tz_char s

abbrev pub trusted_env : Dict (Text → Bool)
trusted_env =
    (codes "JOB_ID", is_number)
    ∷ (codes "SGE_TASK_ID", task_pattern)
    ∷ (codes "SGE_JOB_SPOOL_DIR", dir_pattern)
    ∷ (codes "SGE_ROOT", dir_pattern)
    ∷ (codes "SGE_CELL", cell_pattern)
    ∷ (codes "SGE_QMASTER_PORT", is_number)
    ∷ (codes "SGE_EXECD_PORT", is_number)
    ∷ (codes "TZ", tz_pattern)
    ∷ []

abbrev pub has_dotdot : Text → Bool
has_dotdot = contains_text (codes "..")

-- `key + "=" + value`.
abbrev pub assign : Text → Text → Text
assign key value = key ++ (b'=' ∷ value)

abbrev pub key_of : Text → Text
key_of kv = (cut b'=' kv).before

-- A variable of the dynamic loader.
unfoldable pub is_loader_key : Text → Bool
unfolding cut_prefix text_eq
is_loader_key key = has_prefix (codes "LD_") key || text_eq key (codes "GLIBC_TUNABLES")

unfoldable pub check_loader_env : List Text → Result (Unit {0})
unfolding is_loader_key cut
check_loader_env [] = ok tt
check_loader_env (kv ∷ environ) = do
  guard (not (is_loader_key (key_of kv)))
      (job_error (errorf "refusing to run: %s is set" (key_of kv ∷ [])))
  check_loader_env environ

-- The home directory of the account that the hook runs as, or "/".
unfoldable pub hook_user_home : Machine → Text
unfolding format_nat
hook_user_home m = elim (m.lookup_id (format_nat m.effective_uid)) [
  | fails e ↦ codes "/"
  | done account ↦ if is_abs account.home_dir then account.home_dir else codes "/"
]

abbrev pub trusted_path : Text
trusted_path = codes "/usr/sbin:/usr/bin:/sbin:/bin"

abbrev pub fixed_env : Machine → List Text
fixed_env m =
    assign (codes "PATH") trusted_path
    ∷ assign (codes "HOME") (hook_user_home m)
    ∷ assign (codes "LANG") (codes "C")
    ∷ assign (codes "LC_ALL") (codes "C")
    ∷ []

-- One round of the loop of `CleanEnv`: a variable that is not trusted, or that has no `=`, is passed over.
abbrev pub pattern_accepts : (Text → Bool) → Text → Bool
pattern_accepts pattern value = pattern value && not (has_dotdot value)

abbrev pub keep_if_trusted : Option (Text → Bool) → Cut → Dict Text → Result (Dict Text)
keep_if_trusted none r values = ok values
keep_if_trusted (some pattern) r values =
    if not r.found
    then ok values
    else if not (pattern_accepts pattern r.after)
    then err (errorf "unexpected value for %s" (r.before ∷ []))
    else ok (insert r.before r.after values)

unfoldable pub clean_one : Text → Dict Text → Result (Dict Text)
unfolding cut lookup insert contains_text cut_prefix
clean_one kv values = let r = cut b'=' kv in keep_if_trusted (lookup r.before trusted_env) r values

unfoldable pub clean_values : List Text → Dict Text → Result (Dict Text)
unfolding clean_one
clean_values [] values = ok values
clean_values (kv ∷ environ) values = do values' ← clean_one kv values; clean_values environ values'

abbrev pub assignments : Dict Text → List Text
assignments = map (λ (k, v). assign k v)

module _ (order : Dict Text → Dict Text) (m : Machine) where
  unfoldable pub clean_env : List Text → Result (List Text)
  unfolding clean_values hook_user_home
  clean_env environ = do
    values ← clean_values environ []
    ok (assignments (order values) ++ fixed_env m)

-- `os.Setenv`: the name is not empty and holds no `=` or NUL, the value holds no NUL.
unfoldable pub setenv : Text → Text → Dict Text → Result (Dict Text)
unfolding has_char insert
setenv key value env = do
  guard (not (is_nil key || has_char b'=' key || has_char 0 key || has_char 0 value))
      (errorf "setenv: invalid argument" [])
  ok (insert key value env)

unfoldable pub set_all : List Text → Dict Text → Result (Dict Text)
unfolding setenv cut
set_all [] env = ok env
set_all (kv ∷ kvs) env =
    let r = cut b'=' kv in
    do
      env' ← or_fail (setenv r.before r.after env) (wrapf "setenv %s: %w" (r.before ∷ []))
      set_all kvs env'

module _ (order : Dict Text → Dict Text) (m : Machine) where
  -- `ResetProcessEnv`: the process environment that the hook goes on with.
  unfoldable pub reset_process_env : List Text → Result (Dict Text)
  unfolding check_loader_env clean_env set_all
  reset_process_env environ = do
    check_loader_env environ
    env ← or_fail (clean_env order m environ) job_error
    set_all env []
