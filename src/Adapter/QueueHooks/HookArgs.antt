-- ===== src/Adapter/QueueHooks/HookArgs.antt =====
-- The hooks read back the arguments that configureQueueHookPaths of
-- src/cmd/gridware-adapter/main.go writes: parseHookArgs of src/cmd/qrmi-ocs-prolog-go/main.go and of
-- src/cmd/qrmi-ocs-epilog-go/main.go.
use qpu_resource.Prelude.{
  Bool, true, false, not, ◌&&◌, [], ◌∷◌, ◌++◌, ◌≡◌, refl, ◌∙◌, ap, Text, text_eq, is_nil, ◌==◌,
}
use qpu_resource.Strings.{cut}
use qpu_resource.FilePath.{is_abs}
use qpu_resource.Errors.{ok, ◌>>=◌, guard_open}
use qpu_resource.Flags.{FlagSet, parse, parse_one}
use qpu_resource.Prolog.Scheduler.{HookConfig}
use qpu_resource.Prolog.Main.{
  hook_flags, set_hook_flag, default_hook_config, owner_of, checked_config, parse_hook_args,
}
use qpu_resource.Epilog.Release.{EpilogConfig}
use qpu_resource.Epilog.Main.{
  epilog_flags, default_epilog_config, set_epilog_flag, with_owner, parse_epilog_args,
}
use qpu_resource.Adapter.HookOptions.{QueueHookOptions}
use qpu_resource.Adapter.QueueHooks.{prolog_args, common_args}

-- An argument that is no flag.
abbrev pub IsPlainArg : Text → Type 0
IsPlainArg [] = Unit
IsPlainArg (c ∷ s) = (c == b'-') ≡ false

module _ {F : Type 0} (fs : FlagSet F) where
  parse-plain : (v : F) (arg : Text) → IsPlainArg arg → parse fs v (arg ∷ []) ≡ ok (v, arg ∷ [])
  unfolding parse parse_one
  parse-plain v [] h = refl
  parse-plain v (c ∷ s) h = rw (h, parse) refl

abbrev pub hook_config_of : QueueHookOptions → HookConfig
hook_config_of o = record {
  config_path = o.config_path;
  resource_name = o.resource_name;
  slots_resource_name = o.slots_resource_name;
  qstat_path = o.qstat_path;
  log_level = o.log_level;
}

abbrev with_level : Text → QueueHookOptions → QueueHookOptions
with_level level o = record o { log_level = level }

parse-prolog_args :
    (level owner : Text) (o : QueueHookOptions)
    → IsPlainArg owner
    → parse hook_flags default_hook_config (prolog_args (with_level level o) ++ (owner ∷ []))
      ≡ ok (hook_config_of (with_level level o), owner ∷ [])
unfolding parse parse_one cut set_hook_flag text_eq default_hook_config
parse-prolog_args [] owner o h = parse-plain hook_flags (hook_config_of (with_level [] o)) owner h
parse-prolog_args (x ∷ level) owner o h =
    parse-plain hook_flags (hook_config_of (with_level (x ∷ level) o)) owner h

abbrev pub epilog_config_of : QueueHookOptions → Text → EpilogConfig
epilog_config_of o owner = record {
  config_path = o.config_path;
  log_level = o.log_level;
  job_owner = owner;
}

parse-common_args :
    (level owner : Text) (o : QueueHookOptions)
    → IsPlainArg owner
    → parse epilog_flags default_epilog_config (common_args (with_level level o) ++ (owner ∷ []))
      ≡ ok (epilog_config_of (with_level level o) [], owner ∷ [])
unfolding parse parse_one cut set_epilog_flag text_eq
parse-common_args [] owner o h =
    parse-plain epilog_flags (epilog_config_of (with_level [] o) []) owner h
parse-common_args (x ∷ level) owner o h =
    parse-plain epilog_flags (epilog_config_of (with_level (x ∷ level) o) []) owner h

all_three : {a b c : Bool} → a ≡ false → b ≡ false → c ≡ true → (not a && not b && c) ≡ true
all_three p q r = rw (p, q, r) refl

-- The prolog and the epilog read the arguments that the adapter writes, with the job's owner behind
-- them, as its options and this owner, where the owner does not begin with a dash, the configuration
-- and the resource are named, and the path of qstat is absolute.
pub parse_hook_args-prolog_args :
    (o : QueueHookOptions) (owner : Text)
    → IsPlainArg owner
    → is_nil o.config_path ≡ false
    → is_nil o.resource_name ≡ false
    → is_abs o.qstat_path ≡ true
    → (parse_hook_args (prolog_args o ++ (owner ∷ [])) ≡ ok (hook_config_of o, owner))
      × (parse_epilog_args (common_args o ++ (owner ∷ [])) ≡ ok (epilog_config_of o owner))
unfolding parse_hook_args parse_epilog_args
parse_hook_args-prolog_args o owner plain c r q = (
  ap (λ parsed. parsed >>= λ p. owner_of p >>= checked_config)
        (parse-prolog_args o.log_level owner o plain)
      ∙ guard_open
          (not (is_nil o.config_path) && not (is_nil o.resource_name) && is_abs o.qstat_path) _ _
          (all_three c r q),
  ap (λ parsed. parsed >>= with_owner) (parse-common_args o.log_level owner o plain),
)
