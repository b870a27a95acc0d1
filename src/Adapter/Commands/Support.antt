-- ===== src/Adapter/Commands/Support.antt =====
-- What a successful `adapter setup-qrmi-support` of src/cmd/gridware-adapter/main.go leaves in the
-- scheduler.
use qpu_resource.Prelude.{
  zero, suc, Bool, false, List, [], ◌∷◌, ◌≡◌, refl, sym, ◌∙◌, ap, inl, inr, Text, codes, text_eq,
  arith,
}
use qpu_resource.Errors.{Result, ok, err, Reply, done, fails, Failure, Reply-cases, wrapf, failed}
use qpu_resource.Adapter.Options.{ResourceOptions, resource_options_from_flags}
use qpu_resource.Adapter.HookOptions.{Surroundings}
use qpu_resource.Adapter.QConf.{IsFaithful}
use qpu_resource.Adapter.Resource.Plan.Agree.{HasDistinctNames}
use qpu_resource.Adapter.Flags.{CommandFlags}
use qpu_resource.Adapter.Requests.{setup_request}
use qpu_resource.Adapter.Commands.{
  Client, ran, stopped, result_of, code_of, setup_qrmi_support, adapter_run, adapter_main,
  run_setup_qrmi_support,
}
use qpu_resource.Adapter.Commands.Steps.{IsSupported, setup_qrmi_support-IsSupported}

one_ne_zero : ¬ (suc zero ≡ zero)
one_ne_zero h = ground arith

-- The clients that are made without a dry run behave as documented.
abbrev pub MakesFaithful : (Text → Bool → Reply Client) → Type 1
MakesFaithful new_client =
    (path : Text) (c : Client) → new_client path false ≡ done c → IsFaithful c.qconf

module _ (new_client : Text → Bool → Reply Client) (w : Surroundings)
    (faithful : MakesFaithful new_client) (args : List Text) (flags : CommandFlags) (value : Text)
    (o : ResourceOptions) where
  -- The client that the command line has made, and what it has done with it.
  pub record Supports : Type 1 where
    pub client : Client
    pub made : new_client flags.qconf false ≡ done client
    pub run :
        run_setup_qrmi_support new_client w args
        ≡ ran client (setup_qrmi_support client.qconf w (flags, value) client.start)
    pub supported :
        IsSupported client.qconf
          (faithful flags.qconf client made)
          w
          flags
          value
          o
          client.start
          (client.qconf.view (setup_qrmi_support client.qconf w (flags, value) client.start).1)

  run_done :
      (c : Client)
      → setup_request args ≡ ok (flags, value)
      → flags.dry_run ≡ false
      → new_client flags.qconf false ≡ done c
      → run_setup_qrmi_support new_client w args
        ≡ ran c (setup_qrmi_support c.qconf w (flags, value) c.start)
  unfolding run_setup_qrmi_support
  run_done c request wet made = rw (request, wet, made) refl

  run_fails :
      (x : Failure)
      → setup_request args ≡ ok (flags, value)
      → flags.dry_run ≡ false
      → new_client flags.qconf false ≡ fails x
      → run_setup_qrmi_support new_client w args
        ≡ stopped (wrapf "create qconf client: %w" [] (failed x))
  unfolding run_setup_qrmi_support
  run_fails x request wet made = rw (request, wet, made) refl

  adapter_main-run :
      (program : Text)
      → adapter_main new_client w (program ∷ codes "setup-qrmi-support" ∷ args)
        ≡ code_of (result_of (run_setup_qrmi_support new_client w args))
  unfolding adapter_main adapter_run text_eq
  adapter_main-run program = refl

  code_of_ok : (r : Result (Unit {0})) → code_of r ≡ 0 → r ≡ ok tt
  code_of_ok (ok tt) h = refl
  code_of_ok (err e) h = absurd (ground arith)

  -- An `adapter setup-qrmi-support` that exits with 0 has made a client, and has set up the resource
  -- and the hooks with it, where its arguments are accepted, it is no dry run, the resources have
  -- different names, and clients behave as documented.
  pub adapter_main-Supports :
      (program : Text)
      → setup_request args ≡ ok (flags, value)
      → flags.dry_run ≡ false
      → resource_options_from_flags flags.resource ≡ ok o
      → HasDistinctNames o
      → adapter_main new_client w (program ∷ codes "setup-qrmi-support" ∷ args) ≡ 0
      → Supports
  adapter_main-Supports program request wet options distinct h =
      elim (Reply-cases (new_client flags.qconf false)) [
        | inl (c, made) ↦
            let run = run_done c request wet made in
            record {
              client = c;
              made = made;
              run = run;
              supported =
                  setup_qrmi_support-IsSupported c.qconf (faithful flags.qconf c made) w flags value
                    o c.start options distinct
                    (code_of_ok _ (
                      sym (ap (λ out. code_of (result_of out)) run)
                      ∙ sym (adapter_main-run program)
                      ∙ h));
            }
        | inr (x, made) ↦ absurd (
            one_ne_zero (
              sym (ap (λ out. code_of (result_of out)) (run_fails x request wet made))
              ∙ sym (adapter_main-run program)
              ∙ h))
      ]
