-- ===== src/Adapter/Commands/Steps.antt =====
-- What `runSetupQRMISupport` of src/cmd/gridware-adapter/main.go, with a client, leaves in the scheduler.
use qpu_resource.Prelude.{List, [], ◌∷◌, ◌≡◌, refl, sym, ◌∙◌, ap, Text}
use mathlib.Core.Path.{subst}
use qpu_resource.Strings.{trim_space}
use qpu_resource.Errors.{ok}
use qpu_resource.Adapter.{parse_csv}
use qpu_resource.Adapter.Options.{ResourceOptions, resource_options_from_flags}
use qpu_resource.Adapter.HookOptions.{QueueHookOptions, Surroundings, queue_hook_options_from_flags}
use qpu_resource.Adapter.QConf.{Configuration, QConf, IsFaithful}
use qpu_resource.Adapter.Action.{Action, lift, ◌>>=◌, ◌>>◌, bind_ok}
use qpu_resource.Adapter.Resource.{ensure_resource_default}
use qpu_resource.Adapter.Resource.Plan.{
  Obligation, has_entry, has_value, lacks_value, runs_sensor, plan, Holds, IsConfigured,
}
use qpu_resource.Adapter.Resource.Plan.Fulfil.{IsOk}
use qpu_resource.Adapter.Resource.Plan.Agree.{HasDistinctNames}
use qpu_resource.Adapter.Resource.Plan.Again.{ensure_resource_default-IsConfigured}
use qpu_resource.Adapter.QueueHooks.{configure_queue_hooks_default}
use qpu_resource.Adapter.QueueHooks.Hooked.{IsHooked, configure_queue_hooks_default-IsHooked}
use qpu_resource.Adapter.Flags.{CommandFlags, default_resource_name}
use qpu_resource.Adapter.Commands.{with_names, setup_qrmi_support}

module _ (qc : QConf) (faithful : IsFaithful qc) (w : Surroundings) (flags : CommandFlags)
    (value : Text) (o : ResourceOptions) where
  open qc use {State, Rest, view}

  -- The options of the hooks, which name the slots as the resource does.
  abbrev raw_hooks : QueueHookOptions
  raw_hooks = with_names default_resource_name o.slots_name flags

  abbrev hosts : List Text
  hosts = parse_csv flags.hosts

  abbrev resourced : State → State
  resourced s = (ensure_resource_default qc o hosts value s).1

  -- The resource is set up, and the queue's hooks on top of it.
  pub record IsSupported (s : State) (c : Configuration Rest) : Type 0 where
    pub configured : IsConfigured qc (plan o hosts value) c
    pub hooks : QueueHookOptions
    pub accepted : queue_hook_options_from_flags w raw_hooks ≡ ok hooks
    pub hooked :
        IsHooked qc faithful w
          (trim_space flags.queue)
          (trim_space flags.prolog)
          (trim_space flags.epilog)
          hooks
          (resourced s)
          c

  -- The setup of the hooks leaves what the plan of the resource is about.
  Holds-kept :
      (ob : Obligation) (c c' : Configuration Rest)
      → c'.complex_entry ≡ c.complex_entry
      → c'.exec_host ≡ c.exec_host
      → c'.host_configuration ≡ c.host_configuration
      → Holds qc ob c
      → Holds qc ob c'
  Holds-kept (has_entry d) c c' p q r h = rw p h
  Holds-kept (has_value host k v) c c' p q r h = rw q h
  Holds-kept (lacks_value host k) c c' p q r h = rw q h
  Holds-kept (runs_sensor host path) c c' p q r h = rw r h

  IsConfigured-kept :
      (obs : List Obligation) (c c' : Configuration Rest)
      → c'.complex_entry ≡ c.complex_entry
      → c'.exec_host ≡ c.exec_host
      → c'.host_configuration ≡ c.host_configuration
      → IsConfigured qc obs c
      → IsConfigured qc obs c'
  IsConfigured-kept [] c c' p q r h = h
  IsConfigured-kept (ob ∷ obs) c c' p q r (h, hs) =
      (Holds-kept ob c c' p q r h, IsConfigured-kept obs c c' p q r hs)

  abbrev set_up_hooks : QueueHookOptions → Action State (Unit {0})
  set_up_hooks =
      configure_queue_hooks_default qc w (trim_space flags.queue) (trim_space flags.prolog)
        (trim_space flags.epilog)

  -- What follows the options of the resource.
  abbrev set_up : Action State (Unit {0})
  set_up = do
    ensure_resource_default qc o hosts value
    lift (queue_hook_options_from_flags w raw_hooks) >>= set_up_hooks

  setup_qrmi_support-set_up :
      (s : State)
      → resource_options_from_flags flags.resource ≡ ok o
      → setup_qrmi_support qc w (flags, value) s ≡ set_up s
  unfolding ◌>>=◌ lift
  setup_qrmi_support-set_up s options = rw options refl

  set_up-IsSupported :
      (s : State) → HasDistinctNames o → (set_up s).0 ≡ ok tt → IsSupported s (view (set_up s).1)
  unfolding lift
  set_up-IsSupported s distinct h =
      let (u, done1, step1) =
        bind_ok (ensure_resource_default qc o hosts value)
          (λ _. lift (queue_hook_options_from_flags w raw_hooks) >>= set_up_hooks) s h in
      let (hooks, accepted, step2) =
        bind_ok (lift (queue_hook_options_from_flags w raw_hooks)) set_up_hooks (resourced s)
          (sym (ap (λ p. p.0) step1) ∙ h) in
      let hooked =
        configure_queue_hooks_default-IsHooked qc faithful w (trim_space flags.queue)
          (trim_space flags.prolog) (trim_space flags.epilog) hooks (resourced s)
          (sym (ap (λ p. p.0) (step1 ∙ step2)) ∙ h) in
      subst (λ c. IsSupported s c) (sym (ap (λ p. view p.1) (step1 ∙ step2)))
        (record {
          configured =
              IsConfigured-kept (plan o hosts value) (view (resourced s)) _
                (ap (λ c. c.complex_entry) hooked.after) (ap (λ c. c.exec_host) hooked.after)
                (ap (λ c. c.host_configuration) hooked.after)
                (ensure_resource_default-IsConfigured qc faithful o hosts value distinct s
                  (subst IsOk (sym done1) tt));
          hooks = hooks;
          accepted = accepted;
          hooked = hooked;
        })

  pub setup_qrmi_support-IsSupported :
      (s : State)
      → resource_options_from_flags flags.resource ≡ ok o
      → HasDistinctNames o
      → (setup_qrmi_support qc w (flags, value) s).0 ≡ ok tt
      → IsSupported s (view (setup_qrmi_support qc w (flags, value) s).1)
  setup_qrmi_support-IsSupported s options distinct h =
      let step = setup_qrmi_support-set_up s options in
      subst (λ c. IsSupported s c) (sym (ap (λ p. view p.1) step))
        (set_up-IsSupported s distinct (sym (ap (λ p. p.0) step) ∙ h))
