-- ===== src/Adapter/QueueHooks/Starts.antt =====
-- The launcher understands the commands that configureQueueHookPaths of
-- src/cmd/gridware-adapter/main.go stores: src/cmd/qrmi-ocs-launch/main.go.
use qpu_resource.Prelude.{
  true, false, List, [], ◌∷◌, ◌++◌, ◌≡◌, refl, ◌∙◌, ap, Text, codes, text_eq, append_assoc, arith,
}
use mathlib.Core.Path.{subst}
use qpu_resource.Strings.{trim_space, split, cut_prefix}
use qpu_resource.FilePath.{is_abs}
use qpu_resource.Errors.{Error, Result, ok, err, or_fail, >>=-eq-ok, wrapf}
use qpu_resource.Launch.{no_settings, is_option, parse_options}
use qpu_resource.Adapter.{qrmi_queue_hook_command}
use qpu_resource.Adapter.Words.{qrmi_queue_hook_command-words, qrmi_queue_hook_command-is_abs}
use qpu_resource.Adapter.HookOptions.{QueueHookOptions, Surroundings}
use qpu_resource.Adapter.QueueHooks.{
  launcher_words, launcher_path, prolog_args, common_args, hook_commands,
}
use qpu_resource.Adapter.QueueHooks.Settings.{settings_of, parse_options-launcher_words}

absolute_no_option : (path : Text) → is_abs path ≡ true → is_option path ≡ false
unfolding cut_prefix
absolute_no_option [] h = refl
absolute_no_option (c ∷ path) h = ground arith

or_fail_ok : {A : Type 0} (r : Result A) (f : Error → Error) {a : A} → or_fail r f ≡ ok a → r ≡ ok a
or_fail_ok (ok a) f h = h
or_fail_ok (err e) f h = absurd (cc h)

ok_injective : {A : Type 0} {a b : A} → ok a ≡ ok b → a ≡ b
ok_injective h = cc h

module _ (w : Surroundings) (roots : List Text) where
  -- The command, split at its blanks as the scheduler does, calls the launcher as the user; what
  -- follows is read as the cluster's settings, the hook, its arguments and the placeholder of the owner.
  abbrev pub Starts : Text → Text → Text → Text → List Text → Type 0
  Starts user launcher command hook args =
      (rest : List Text) × (split b' ' command ≡ (user ++ (b'@' ∷ launcher)) ∷ rest)
      × (parse_options no_settings rest
          ≡ ok (settings_of w roots, trim_space hook ∷ (args ++ (codes "$job_owner" ∷ []))))

  command-Starts :
      (hook launcher user : Text) (args : List Text) {command : Text}
      → text_eq (trim_space hook) (codes "NONE") ≡ false
      → qrmi_queue_hook_command hook launcher user (launcher_words w roots) args ≡ ok command
      → Starts user launcher command hook args
  command-Starts hook launcher user args given h = (
    (launcher_words w roots ++ (trim_space hook ∷ args)) ++ (codes "$job_owner" ∷ []),
    qrmi_queue_hook_command-words hook launcher user (launcher_words w roots) args given h,
    ap (parse_options no_settings)
          (append_assoc (launcher_words w roots) (trim_space hook ∷ args) (codes "$job_owner" ∷ []))
        ∙ parse_options-launcher_words w roots (trim_space hook) (args ++ (codes "$job_owner" ∷ []))
            (absolute_no_option (trim_space hook) (
              qrmi_queue_hook_command-is_abs hook launcher user (launcher_words w roots) args given
                h)),
  )

  -- Accepted commands, of a prolog and an epilog other than NONE, both start as they should.
  pub hook_commands-Starts :
      (prolog epilog : Text) (o : QueueHookOptions) {commands : Text × Text}
      → text_eq (trim_space prolog) (codes "NONE") ≡ false
      → text_eq (trim_space epilog) (codes "NONE") ≡ false
      → hook_commands prolog epilog o (launcher_words w roots) ≡ ok commands
      → Starts o.hook_user (launcher_path prolog o) commands.0 prolog (prolog_args o)
        × Starts o.hook_user (launcher_path prolog o) commands.1 epilog (common_args o)
  hook_commands-Starts prolog epilog o {commands} p e h =
      let (first, made1, h1) =
        >>=-eq-ok
          (or_fail
            (qrmi_queue_hook_command prolog (launcher_path prolog o) o.hook_user
              (launcher_words w roots) (prolog_args o))
            (wrapf "invalid prolog: %w" []))
          _ h in
      let (second, made2, h2) =
        >>=-eq-ok
          (or_fail
            (qrmi_queue_hook_command epilog (launcher_path prolog o) o.hook_user
              (launcher_words w roots) (common_args o))
            (wrapf "invalid epilog: %w" []))
          _ h1 in
      let pair : (first, second) ≡ commands = ok_injective h2 in
      subst
        (λ (c : Text × Text).
          Starts o.hook_user (launcher_path prolog o) c.0 prolog (prolog_args o)
          × Starts o.hook_user (launcher_path prolog o) c.1 epilog (common_args o))
        pair
        (
          command-Starts prolog (launcher_path prolog o) o.hook_user (prolog_args o) p
              (or_fail_ok _ _ made1),
          command-Starts epilog (launcher_path prolog o) o.hook_user (common_args o) e
              (or_fail_ok _ _ made2),
        )
