-- ===== src/Adapter/QueueHooks/Launches.antt =====
-- From the adapter to the launcher: the commands that configureQueueHooksDefault of
-- src/cmd/gridware-adapter/main.go stores are accepted by src/cmd/qrmi-ocs-launch/main.go.
use qpu_resource.Prelude.{
  true, false, List, [], ◌∷◌, ◌≡◌, refl, ◌∙◌, ap, some, Text, codes, text_eq,
}
use qpu_resource.Strings.{trim_space}
use qpu_resource.Errors.{ok}
use qpu_resource.Qrmiocs.Sanitize.{cell_pattern}
use qpu_resource.Qrmiocs.LaunchEnv.{validate}
use qpu_resource.Adapter.HookOptions.{QueueHookOptions, Surroundings, cell}
use qpu_resource.Adapter.QConf.{ClusterQueue, Configuration, QConf, IsFaithful, put_self}
use qpu_resource.Adapter.QueueHooks.{
  with_hooks, launcher_path, prolog_args, common_args, configure_queue_hooks_default,
}
use qpu_resource.Adapter.QueueHooks.Hooked.{configure_queue_hooks_default-IsHooked}
use qpu_resource.Adapter.QueueHooks.Settings.{
  settings_of, qmaster_port, execd_port, IsPort, validate-settings_of,
}
use qpu_resource.Adapter.QueueHooks.Starts.{Starts, hook_commands-Starts}

-- The cell and the ports have the forms that the launcher demands.
pub record HasForms (w : Surroundings) : Type 0 where
  pub cell_form : cell_pattern (cell w) ≡ true
  pub qmaster_form : IsPort (qmaster_port w)
  pub execd_form : IsPort (execd_port w)

module _ (qc : QConf) (w : Surroundings) (queue prolog epilog : Text) (o : QueueHookOptions) where
  open qc use {State, Rest, view}

  -- The queue has one command for each hook, with settings that the launcher reads and accepts.
  pub record Launches (c : Configuration Rest) : Type 0 where
    pub roots : List Text
    pub prolog_command : Text
    pub epilog_command : Text
    pub stored : ClusterQueue Rest
    pub at : c.cluster_queue queue ≡ some stored
    pub has_prolog : stored.prolog ≡ prolog_command ∷ []
    pub has_epilog : stored.epilog ≡ epilog_command ∷ []
    pub starts_prolog :
        Starts w roots o.hook_user (launcher_path prolog o) prolog_command prolog (prolog_args o)
    pub starts_epilog :
        Starts w roots o.hook_user (launcher_path prolog o) epilog_command epilog (common_args o)
    pub accepted : validate (settings_of w roots) ≡ ok tt

  -- After a setup of the hooks that succeeds, with a prolog and an epilog other than NONE, and a cell
  -- and ports in the launcher's forms, the queue's commands start the launcher with settings that it
  -- reads back and accepts, and hand the hook its arguments.
  pub configure_queue_hooks_default-Launches :
      IsFaithful qc
      → HasForms w
      → (s : State) → text_eq (trim_space prolog) (codes "NONE") ≡ false
      → text_eq (trim_space epilog) (codes "NONE") ≡ false
      → (configure_queue_hooks_default qc w queue prolog epilog o s).0 ≡ ok tt
      → Launches (view (configure_queue_hooks_default qc w queue prolog epilog o s).1)
  configure_queue_hooks_default-Launches faithful forms s p e h =
      let hooked = configure_queue_hooks_default-IsHooked qc faithful w queue prolog epilog o s h in
      let (first, second) =
        hook_commands-Starts w hooked.roots prolog epilog o p e
          (rw (hooked.prolog_command, hooked.epilog_command) refl) in
      record {
        roots = hooked.roots;
        prolog_command = hooked.commands.0;
        epilog_command = hooked.commands.1;
        stored = with_hooks qc queue hooked.commands.0 hooked.commands.1 hooked.before;
        at =
            ap (λ c. c.cluster_queue queue) hooked.after
            ∙ put_self queue (with_hooks qc queue hooked.commands.0 hooked.commands.1 hooked.before)
                (view s).cluster_queue;
        has_prolog = refl;
        has_epilog = refl;
        starts_prolog = first;
        starts_epilog = second;
        accepted =
            validate-settings_of w hooked.roots hooked.absolute hooked.holds.are.0 forms.cell_form
              forms.qmaster_form forms.execd_form;
      }
