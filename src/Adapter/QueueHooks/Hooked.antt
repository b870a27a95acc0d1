-- ===== src/Adapter/QueueHooks/Hooked.antt =====
-- What a successful configureQueueHooksDefault of src/cmd/gridware-adapter/main.go leaves in the
-- scheduler.
use qpu_resource.Prelude.{true, List, ◌≡◌, sym, ◌∙◌, ap, some, Text}
use mathlib.Core.Path.{subst}
use qpu_resource.FilePath.{is_abs}
use qpu_resource.Errors.{ok}
use qpu_resource.Adapter.HookOptions.{QueueHookOptions, Surroundings}
use qpu_resource.Adapter.QConf.{
  ClusterQueue, GlobalConfiguration, Configuration, QConf, IsFaithful, put,
}
use qpu_resource.Adapter.Action.{lift, ◌>>=◌, bind_ok}
use qpu_resource.Adapter.{qrmi_queue_hook_command}
use qpu_resource.Prelude.{arith, codes, ◌++◌, if◌then◌else◌, [], ◌∷◌, contains}
use qpu_resource.Adapter.QueueHooks.{
  launcher_path, prolog_args, common_args, launcher_words, launcher_settings, hook_commands,
  store_hooks, with_hooks, reporting_pattern, ensure_global_reporting_pattern,
  configure_queue_hook_paths, configure_queue_hooks_default,
}
use qpu_resource.Adapter.QueueHooks.Gather.{HoldsRoots}
use qpu_resource.Adapter.QueueHooks.Settings.{root}
use qpu_resource.Adapter.QueueHooks.Stored.{
  launcher_settings_ok, store_hooks_ok, ensure_pattern_ok, reporting,
}

-- The two commands of a run that accepts its hooks.
hook_commands_inv :
    (prolog epilog : Text) (o : QueueHookOptions) (words : List Text) {commands : Text × Text}
    → hook_commands prolog epilog o words ≡ ok commands
    → (qrmi_queue_hook_command prolog (launcher_path prolog o) o.hook_user words (prolog_args o)
        ≡ ok commands.0)
      × (qrmi_queue_hook_command epilog (launcher_path prolog o) o.hook_user words (common_args o)
          ≡ ok commands.1)
hook_commands_inv prolog epilog o words h = ground arith

module _ (qc : QConf) (faithful : IsFaithful qc) (w : Surroundings) where
  open qc use {State, Rest, view}

  module _ (queue prolog epilog : Text) (o : QueueHookOptions) where
    -- The queue with the two commands.
    abbrev hooked : Text × Text → ClusterQueue Rest → Configuration Rest → Configuration Rest
    hooked commands before c = record c {
      cluster_queue = put queue (with_hooks qc queue commands.0 commands.1 before) c.cluster_queue;
    }

    -- The queue's two commands are those for the gathered roots; all else is the same.
    record HasCommands (s : State) (c' : Configuration Rest) : Type 0 where
      roots : List Text
      commands : Text × Text
      before : ClusterQueue Rest
      absolute : is_abs (root w) ≡ true
      holds : HoldsRoots qc s roots
      accepted : hook_commands prolog epilog o (launcher_words w roots) ≡ ok commands
      queue_found : (view s).cluster_queue queue ≡ some before
      after : c' ≡ hooked commands before (view s)

    configure_queue_hook_paths-HasCommands :
        (s : State) {u : Unit {0}}
        → (configure_queue_hook_paths qc w queue prolog epilog o s).0 ≡ ok u
        → HasCommands s (view (configure_queue_hook_paths qc w queue prolog epilog o s).1)
    unfolding configure_queue_hook_paths lift
    configure_queue_hook_paths-HasCommands s h =
        let (words, done1, step1) =
          bind_ok (launcher_settings qc w)
            (λ words. lift (hook_commands prolog epilog o words) >>= store_hooks qc queue) s h in
        let s1 = (launcher_settings qc w s).1 in
        let (commands, done2, step2) =
          bind_ok (lift (hook_commands prolog epilog o words)) (store_hooks qc queue) s1
            (sym (ap (λ p. p.0) step1) ∙ h) in
        let (roots, spelled, absolute, same, holds) = launcher_settings_ok qc faithful w s done1 in
        let (before, queue_at, stored) =
          store_hooks_ok qc faithful w queue commands s1
            (sym (ap (λ p. p.0) (step1 ∙ step2)) ∙ h) in
        record {
          roots = roots;
          commands = commands;
          before = before;
          absolute = absolute;
          holds = holds;
          accepted = ap (hook_commands prolog epilog o) (sym spelled) ∙ done2;
          queue_found = subst (λ c. c.cluster_queue queue ≡ some before) same queue_at;
          after = ap (λ p. view p.1) (step1 ∙ step2) ∙ stored ∙ ap (hooked commands before) same;
        }

    -- The reporting parameters with the pattern behind them, where it is not there.
    abbrev with_usage_pattern : GlobalConfiguration Rest → GlobalConfiguration Rest
    with_usage_pattern g =
        if contains g.reporting_params (codes "usage_patterns=qrmi:qrmi_*") then g else record g {
          reporting_params = g.reporting_params ++ (codes "usage_patterns=qrmi:qrmi_*" ∷ []);
        }

    -- From the state in which the run begins to the configuration that it leaves: the queue has the
    -- two commands for the gathered roots, and the global configuration has the pattern; all else is
    -- the same.
    pub record IsHooked (s : State) (c' : Configuration Rest) : Type 0 where
      pub roots : List Text
      pub commands : Text × Text
      pub before : ClusterQueue Rest
      pub global : GlobalConfiguration Rest
      pub absolute : is_abs (root w) ≡ true
      pub holds : HoldsRoots qc s roots
      pub prolog_command :
          qrmi_queue_hook_command prolog
            (launcher_path prolog o)
            o.hook_user
            (launcher_words w roots)
            (prolog_args o)
          ≡ ok commands.0
      pub epilog_command :
          qrmi_queue_hook_command epilog
            (launcher_path prolog o)
            o.hook_user
            (launcher_words w roots)
            (common_args o)
          ≡ ok commands.1
      pub queue_found : (view s).cluster_queue queue ≡ some before
      pub global_found : (view s).global_configuration ≡ some global
      pub after : c' ≡ record (view s) {
        cluster_queue =
            put queue
              (record before { name = queue; prolog = commands.0 ∷ []; epilog = commands.1 ∷ [] })
              (view s).cluster_queue;
        global_configuration = some (with_usage_pattern global);
      }

    -- A setup of the hooks that succeeds has stored at the queue, as its only prolog and its only
    -- epilog, the commands that are accepted for the two hooks and the gathered spool directories, and
    -- in the global configuration the reporting pattern behind the other parameters, unless it was
    -- there; the rest of the queue and of the configuration is as before.
    pub configure_queue_hooks_default-IsHooked :
        (s : State)
        → (configure_queue_hooks_default qc w queue prolog epilog o s).0 ≡ ok tt
        → IsHooked s (view (configure_queue_hooks_default qc w queue prolog epilog o s).1)
    unfolding configure_queue_hooks_default
    configure_queue_hooks_default-IsHooked s h =
        let (u, done1, step) =
          bind_ok (configure_queue_hook_paths qc w queue prolog epilog o)
            (λ _. ensure_global_reporting_pattern qc reporting_pattern) s h in
        let paths = configure_queue_hook_paths-HasCommands s done1 in
        let (global, global_at, ends) =
          ensure_pattern_ok qc faithful w reporting_pattern
            (configure_queue_hook_paths qc w queue prolog epilog o s).1
            (sym (ap (λ p. p.0) step) ∙ h) in
        record {
          roots = paths.roots;
          commands = paths.commands;
          before = paths.before;
          global = global;
          absolute = paths.absolute;
          holds = paths.holds;
          prolog_command = (hook_commands_inv prolog epilog o _ paths.accepted).0;
          epilog_command = (hook_commands_inv prolog epilog o _ paths.accepted).1;
          queue_found = paths.queue_found;
          global_found = subst (λ c. c.global_configuration ≡ some global) paths.after global_at;
          after =
              ap (λ p. view p.1) step
              ∙ ends
              ∙ ap
                  (λ (c : Configuration Rest). record c {
                    global_configuration = some (reporting qc faithful w reporting_pattern global);
                  })
                  paths.after;
        }
