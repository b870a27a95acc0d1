-- ===== src/Adapter/Resource/Plan/Places.antt =====
-- Where the plan of ensureResourceDefault of src/cmd/gridware-adapter/main.go has its obligations.
use qpu_resource.Prelude.{
  Bool, true, false, ◌&&◌, List, [], ◌∷◌, ◌≡◌, refl, inl, inr, Text, codes, text_eq, Bool-cases,
  All, All-append, Any, contains-Any,
}
use qpu_resource.Prelude.Int.{is_positive}
use qpu_resource.Adapter.Options.{ResourceOptions, global_host}
use qpu_resource.Adapter.QConf.{QConf, IsFaithful}
use qpu_resource.Adapter.Resource.{
  qpu_name, qpu_complex_entry, qpu_slots_complex_entry, qpu_ready_complex_entry,
  ensure_resource_default,
}
use qpu_resource.Adapter.Resource.Plan.{
  Obligation, has_entry, only_if, slots_obligation, host_obligations, sensor_obligations, plan,
}
use qpu_resource.Adapter.Resource.Plan.Again.{ensure_resource_default-Reach}
use qpu_resource.Adapter.Resource.Plan.Frame.{
  is_resource, is_target, Places, LeavesAlone, Reach-LeavesAlone,
}

module _ (qc : QConf) (o : ResourceOptions) (hosts : List Text) where
  open qc use {State, view}

  resource_name :
      (k : Text)
      → Any (λ x. x ≡ k) (qpu_name ∷ o.slots_name ∷ o.ready_name ∷ [])
      → is_resource qc o hosts k ≡ true
  resource_name k h = contains-Any (qpu_name ∷ o.slots_name ∷ o.ready_name ∷ []) k h

  slots_place :
      (host : Text) → is_target qc o hosts host ≡ true → Places qc o hosts (slots_obligation o host)
  slots_place host t = elim (Bool-cases (is_positive o.slots_capacity)) [
    | inl e ↦ rw e (t, resource_name o.slots_name (inr (inl refl)))
    | inr e ↦ rw e (t, resource_name o.slots_name (inr (inl refl)))
  ]

  All-only_if :
      (b : Bool) (obligations : List Obligation)
      → All (Places qc o hosts) obligations
      → All (Places qc o hosts) (only_if b obligations)
  All-only_if true obligations h = h
  All-only_if false obligations h = tt

  host-Places :
      (value : Text) (targets : List Text)
      → All (λ h. is_target qc o hosts h ≡ true) targets
      → All (Places qc o hosts) (host_obligations o value targets)
  host-Places value [] h = tt
  host-Places value (host ∷ targets) (t, h) = (
    (t, resource_name qpu_name (inl refl)),
    All-append (Places qc o hosts)
        (only_if (o.enable_slots && text_eq o.slots_scope (codes "host"))
          (slots_obligation o host ∷ []))
        (host_obligations o value targets)
        (All-only_if (o.enable_slots && text_eq o.slots_scope (codes "host"))
          (slots_obligation o host ∷ []) (slots_place host t, tt))
        (host-Places value targets h),
  )

  targets_hold :
      (targets : List Text)
      → ((h : Text) → Any (λ x. x ≡ h) targets → is_target qc o hosts h ≡ true)
      → All (λ h. is_target qc o hosts h ≡ true) targets
  targets_hold [] f = tt
  targets_hold (h ∷ targets) f = (f h (inl refl), targets_hold targets (λ j m. f j (inr m)))

  global_target : is_target qc o hosts global_host ≡ true
  global_target = contains-Any (global_host ∷ hosts) global_host (inl refl)

  plan-Places : (value : Text) → All (Places qc o hosts) (plan o hosts value)
  unfolding qpu_complex_entry qpu_slots_complex_entry qpu_ready_complex_entry
  plan-Places value = (
    resource_name qpu_name (inl refl),
    All-append (Places qc o hosts)
        (only_if o.enable_slots (has_entry (qpu_slots_complex_entry o.slots_name) ∷ [])) _
        (All-only_if o.enable_slots (has_entry (qpu_slots_complex_entry o.slots_name) ∷ [])
          (resource_name o.slots_name (inr (inl refl)), tt))
        (All-append (Places qc o hosts) (only_if o.enable_load_sensor (sensor_obligations o)) _
          (All-only_if o.enable_load_sensor (sensor_obligations o) (
            resource_name o.ready_name (inr (inr (inl refl))),
            ((global_target, resource_name o.ready_name (inr (inr (inl refl)))), (refl, tt)),
          ))
          (All-append (Places qc o hosts)
            (only_if (o.enable_slots && text_eq o.slots_scope global_host)
              (slots_obligation o global_host ∷ []))
            (host_obligations o value hosts)
            (All-only_if (o.enable_slots && text_eq o.slots_scope global_host)
              (slots_obligation o global_host ∷ []) (slots_place global_host global_target, tt))
            (host-Places value hosts
              (targets_hold hosts (λ h m. contains-Any (global_host ∷ hosts) h (inr m)))))),
  )

  -- Whether it succeeds or fails, the setup leaves alone the queues, the global configuration,
  -- complex entries of other names, hosts that are neither named nor `global`, on every host the
  -- values of other resources, and the configurations of other hosts than the sensor's.
  pub ensure_resource_default-LeavesAlone :
      IsFaithful qc
      → (value : Text) (s : State)
      → LeavesAlone qc o hosts (view s) (view (ensure_resource_default qc o hosts value s).1)
  ensure_resource_default-LeavesAlone faithful value s =
      Reach-LeavesAlone qc o hosts (plan o hosts value) (plan-Places value)
        (ensure_resource_default-Reach qc faithful o hosts value s)
