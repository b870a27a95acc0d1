-- ===== src/Launch.antt =====
-- src/cmd/qrmi-ocs-launch/main.go: the launcher, which starts a hook with a clean environment.
-- The change of the directory and `execve` are not modelled.
pub mod Options
use qpu_resource.Prelude.{
  Bool, true, false, List, [], ◌∷◌, ◌++◌, Option, none, some, Text, codes, text_eq, if◌then◌else◌,
}
use qpu_resource.Strings.{cut, has_prefix, cut_prefix}
use qpu_resource.FilePath.{base}
use qpu_resource.Machine.{Machine}
use qpu_resource.Errors.{errorf, Result, ok, err, ◌>>=◌, ◌>>◌}
use qpu_resource.Trusted.{trusted_hook}
use qpu_resource.Qrmiocs.LaunchEnv.{LaunchSettings, launch_env}

abbrev pub no_settings : LaunchSettings
no_settings = record {
  sge_root = [];
  sge_cell = [];
  spool_roots = [];
  qmaster_port = [];
  execd_port = [];
}

-- `--spool-root` adds a root; the others replace a value.
unfoldable pub set_option : Text → Text → LaunchSettings → Option LaunchSettings
unfolding text_eq
set_option name value s =
    if text_eq name (codes "--spool-root")
    then some (record s { spool_roots = s.spool_roots ++ (value ∷ []) })
    else if text_eq name (codes "--sge-root")
    then some (record s { sge_root = value })
    else if text_eq name (codes "--sge-cell")
    then some (record s { sge_cell = value })
    else if text_eq name (codes "--qmaster-port")
    then some (record s { qmaster_port = value })
    else if text_eq name (codes "--execd-port")
    then some (record s { execd_port = value })
    else none

-- The settings, and the arguments from the hook's path on.
abbrev pub Parsed : Type 0
Parsed = LaunchSettings × List Text

abbrev pub is_option : Text → Bool
is_option = has_prefix (codes "--")

-- The loop over the options.
unfoldable pub parse_options : LaunchSettings → List Text → Result Parsed
unfolding set_option cut cut_prefix
parse_options s [] = ok (s, [])
parse_options s (arg ∷ args) =
    if is_option arg
    then elim (set_option (cut b'=' arg).before (cut b'=' arg).after s) [
      | none ↦ err (errorf "unknown option %s" ((cut b'=' arg).before ∷ []))
      | some s' ↦ parse_options s' args
    ]
    else ok (s, arg ∷ args)

-- The path, the arguments and the environment of the hook.
pub record Command : Type 0 where
  pub path : Text
  pub argv : List Text
  pub env : List Text

module _ (m : Machine) (program : Text) (environ : List Text) where
  unfoldable pub start : Parsed → Result Command
  unfolding base
  start (s, []) = err (
      errorf
        "usage: %s --sge-root=DIR --sge-cell=CELL [--spool-root=DIR]... [--qmaster-port=N] [--execd-port=N] <hook> [hook arguments]"
        (base program ∷ []))
  start (s, hook ∷ args) = do
    env ← launch_env m environ s
    path ← trusted_hook m hook
    ok (record { path = path; argv = path ∷ args; env = env })

  -- `prepare`, with the program's name apart from its arguments.
  unfoldable pub prepare : List Text → Result Command
  unfolding parse_options
  prepare args = do parsed ← parse_options no_settings args; start parsed
