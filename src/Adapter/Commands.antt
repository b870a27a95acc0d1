-- ===== src/Adapter/Commands.antt =====
-- src/cmd/gridware-adapter/main.go: its subcommands and `main`, with `qconf.NewCommandLineQConf` as a
-- parameter. The usage texts and the lines on the progress are not modelled.
pub mod Steps
pub mod Support
use qpu_resource.Prelude.{
  ℕ, Bool, List, [], ◌∷◌, Option, none, some, Text, codes, text_eq, if◌then◌else◌,
}
use qpu_resource.Strings.{trim_space}
use qpu_resource.Errors.{Error, wrapf, Result, ok, err, Reply, reply, or_fail}
use qpu_resource.Adapter.{parse_csv}
use qpu_resource.Adapter.Options.{resource_options_from_flags}
use qpu_resource.Adapter.HookOptions.{QueueHookOptions, Surroundings, queue_hook_options_from_flags}
use qpu_resource.Adapter.QConf.{QConf}
use qpu_resource.Adapter.Action.{Action, lift, ◌>>=◌, ◌>>◌}
use qpu_resource.Adapter.Resource.{ensure_resource_default}
use qpu_resource.Adapter.QueueHooks.{configure_queue_hooks_default}
use qpu_resource.Adapter.Flags.{CommandFlags, default_resource_name}
use qpu_resource.Adapter.Requests.{ensure_resource_request, setup_request, queue_hooks_request}

-- A client, and its state when it has been made.
pub record Client : Type 1 where
  pub qconf : QConf
  pub start : qconf.State

-- How a subcommand ends: before it has a client, or with what the client's state has become.
pub data Outcome : Type 1 where
  stopped : Error → Outcome
  ran : (c : Client) → Result (Unit {0}) × c.qconf.State → Outcome

abbrev pub result_of : Outcome → Result (Unit {0})
result_of (stopped e) = err e
result_of (ran c out) = out.0

abbrev with_names : Text → Text → CommandFlags → QueueHookOptions
with_names resource slots flags = record flags.hooks {
  resource_name = resource;
  slots_resource_name = slots;
}

-- Everything that a subcommand has the client do.
module _ (qc : QConf) where
  open qc use {State}

  abbrev pub ensure_resource : CommandFlags × Text → Action State (Unit {0})
  ensure_resource (flags, value) = do
    o ← lift (resource_options_from_flags flags.resource)
    ensure_resource_default qc o (parse_csv flags.hosts) value

  abbrev pub setup_qrmi_support : Surroundings → CommandFlags × Text → Action State (Unit {0})
  setup_qrmi_support w (flags, value) = do
    o ← lift (resource_options_from_flags flags.resource)
    ensure_resource_default qc o (parse_csv flags.hosts) value
    hooks ←
        lift (queue_hook_options_from_flags w (with_names default_resource_name o.slots_name flags))
    configure_queue_hooks_default qc w (trim_space flags.queue) (trim_space flags.prolog)
        (trim_space flags.epilog) hooks

  abbrev pub configure_queue_hooks : Surroundings → CommandFlags → Action State (Unit {0})
  configure_queue_hooks w flags = do
    hooks ← lift (queue_hook_options_from_flags w flags.hooks)
    configure_queue_hooks_default qc w flags.queue flags.prolog flags.epilog hooks

abbrev pub code_of : Result (Unit {0}) → ℕ
code_of (ok _) = 0
code_of (err _) = 1

module _ (new_client : Text → Bool → Reply Client) (w : Surroundings) where
  abbrev with_client : Result Client → ((qc : QConf) → Action qc.State (Unit {0})) → Outcome
  with_client (err e) act = stopped e
  with_client (ok c) act = ran c (act c.qconf c.start)

  abbrev on_client : CommandFlags → ((qc : QConf) → Action qc.State (Unit {0})) → Outcome
  on_client flags act =
      with_client
        (or_fail (reply (new_client flags.qconf flags.dry_run))
          (wrapf "create qconf client: %w" []))
        act

  abbrev after_request : {A : Type 0} → Result A → (A → Outcome) → Outcome
  after_request (err e) next = stopped e
  after_request (ok a) next = next a

  unfoldable pub run_ensure_resource : List Text → Outcome
  unfolding ensure_resource_request resource_options_from_flags ensure_resource_default parse_csv
      ◌>>=◌
  run_ensure_resource args =
      after_request (ensure_resource_request args) (λ r. on_client r.0 (λ qc. ensure_resource qc r))

  unfoldable pub run_setup_qrmi_support : List Text → Outcome
  unfolding setup_request
  run_setup_qrmi_support args =
      after_request (setup_request args) (λ r. on_client r.0 (λ qc. setup_qrmi_support qc w r))

  unfoldable pub run_configure_queue_hooks : List Text → Outcome
  unfolding queue_hooks_request
  run_configure_queue_hooks args =
      after_request (queue_hooks_request args)
        (λ flags. on_client flags (λ qc. configure_queue_hooks qc w flags))

  -- The subcommand of a command line, if there is one of that name.
  unfoldable pub adapter_run : List Text → Option Outcome
  unfolding text_eq
  adapter_run [] = none
  adapter_run (program ∷ []) = none
  adapter_run (program ∷ command ∷ args) =
      if text_eq command (codes "setup-qrmi-support")
      then some (run_setup_qrmi_support args)
      else if text_eq command (codes "ensure-resource")
      then some (run_ensure_resource args)
      else if text_eq command (codes "configure-queue-hooks")
      then some (run_configure_queue_hooks args)
      else none

  abbrev status_of : Option Outcome → ℕ
  status_of none = 2
  status_of (some outcome) = code_of (result_of outcome)

  -- `main`, with the code it exits with.
  unfoldable pub adapter_main : List Text → ℕ
  adapter_main args = status_of (adapter_run args)
