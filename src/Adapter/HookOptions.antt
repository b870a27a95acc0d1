-- ===== src/Adapter/HookOptions.antt =====
-- src/cmd/gridware-adapter/main.go: the options of the queue hooks, from the values of the flags, and
-- the account that the hooks run as.
use qpu_resource.Prelude.{
  not, ◌&&◌, List, [], ◌∷◌, Option, none, some, Text, codes, text_eq, if◌then◌else◌, is_nil,
  or_default,
}
use qpu_resource.Strings.{trim_space, split, fields, equal_fold}
use qpu_resource.FilePath.{join_paths}
use qpu_resource.Dict.{Dict, value_of}
use qpu_resource.Errors.{errorf, wrapf, Result, ok, Reply, reply, or_fail, guard, ◌>>=◌, ◌>>◌}

pub record QueueHookOptions : Type 0 where
  pub config_path : Text
  pub resource_name : Text
  pub slots_resource_name : Text
  pub qstat_path : Text
  pub hook_user : Text
  pub log_level : Text
  pub launcher : Text

-- What the adapter asks of the system: the environment, `exec.LookPath`, `filepath.Abs`, `os.ReadFile`.
pub record Surroundings : Type 0 where
  pub env : Dict Text
  pub look_path : Text → Reply Text
  pub abs : Text → Reply Text
  pub read_file : Text → Reply Text

-- The account that a line of the bootstrap file names.
abbrev account_of : List Text → Option Text
account_of (key ∷ value ∷ []) =
    if text_eq key (codes "admin_user")
    then some (if equal_fold value (codes "none") then codes "root" else value)
    else none
account_of _ = none

-- The loop over the lines.
unfoldable pub admin_user_of : List Text → Text
unfolding fields text_eq equal_fold
admin_user_of [] = codes "root"
admin_user_of (line ∷ lines) =
    let rest = admin_user_of lines in
    elim (account_of (fields line)) [ some user ↦ user | none ↦ rest ]

module _ (w : Surroundings) where
  -- `$SGE_CELL`, or the default cell.
  unfoldable pub cell : Text
  unfolding value_of
  cell = or_default (value_of (codes "SGE_CELL") w.env) (codes "default")

  unfoldable pub bootstrap_path : Text
  unfolding value_of join_paths cell
  bootstrap_path =
      join_paths
        (value_of (codes "SGE_ROOT") w.env ∷ cell ∷ codes "common" ∷ codes "bootstrap" ∷ [])

  unfoldable pub ocs_admin_user : Text → Result Text
  unfolding split admin_user_of
  ocs_admin_user path = do
    text ←
        or_fail (reply (w.read_file path))
          (wrapf "read OCS bootstrap %s (set --hook-user to skip): %w" (path ∷ []))
    ok (admin_user_of (split b'\n' text))

  abbrev trimmed_options : Text → QueueHookOptions → QueueHookOptions
  trimmed_options qstat flags = record {
    config_path = trim_space flags.config_path;
    resource_name = trim_space flags.resource_name;
    slots_resource_name = trim_space flags.slots_resource_name;
    qstat_path = qstat;
    hook_user = trim_space flags.hook_user;
    log_level = trim_space flags.log_level;
    launcher = trim_space flags.launcher;
  }

  abbrev with_hook_user : QueueHookOptions → Result QueueHookOptions
  with_hook_user o =
      if is_nil o.hook_user
      then (ocs_admin_user bootstrap_path >>= λ user. ok (record o { hook_user = user }))
      else ok o

  -- `queueHookOptionsFromFlags`: the argument holds the values of the flags.
  unfoldable pub queue_hook_options_from_flags : QueueHookOptions → Result QueueHookOptions
  unfolding trim_space ocs_admin_user bootstrap_path
  queue_hook_options_from_flags flags = do
    found ←
        or_fail (reply (w.look_path (trim_space flags.qstat_path)))
          (wrapf "resolve qstat executable: %w" [])
    qstat ← or_fail (reply (w.abs found)) (wrapf "resolve absolute qstat path: %w" [])
    let o = trimmed_options qstat flags
    guard (not (is_nil o.config_path) && not (is_nil o.resource_name))
        (errorf "QRMI config and QPU resource must not be empty" [])
    with_hook_user o
