-- ===== src/Adapter/Resource/Plan/Setup.antt =====
-- ensureResourceDefault of src/cmd/gridware-adapter/main.go carries out its plan.
use qpu_resource.Prelude.{
  ◌&&◌, List, [], ◌∷◌, ◌++◌, refl, inl, inr, Text, codes, text_eq, Bool-cases,
}
use qpu_resource.Prelude.Int.{is_positive}
use qpu_resource.Decimal.{format_int}
use qpu_resource.Adapter.Options.{ResourceOptions, global_host}
use qpu_resource.Adapter.QConf.{ComplexEntry, QConf, IsFaithful}
use qpu_resource.Adapter.Action.{Action, ◌>>◌}
use qpu_resource.Adapter.Resource.{
  qpu_name, qpu_complex_entry, qpu_slots_complex_entry, qpu_ready_complex_entry,
  ensure_complex_entry, set_exec_host_resource, ensure_load_sensor, ensure_slots, ensure_hosts,
  ensure_resource_default,
}
use qpu_resource.Adapter.Resource.Plan.{
  Obligation, has_entry, has_value, lacks_value, runs_sensor, slots_obligation, host_obligations,
  sensor_obligations, plan,
}
use qpu_resource.Adapter.Resource.Plan.Entries.{ensure_complex_entry-Fulfils}
use qpu_resource.Adapter.Resource.Plan.Values.{
  set_exec_host_resource-Fulfils, clear_exec_host_resource-Fulfils,
}
use qpu_resource.Adapter.Resource.Plan.Sensor.{configure_host_load_sensor-Fulfils}
use qpu_resource.Adapter.Resource.Plan.Reaches.{
  Reaches, Reaches-one, Reaches-pure, Reaches-then, Reaches-when,
}
use qpu_resource.Adapter.Resource.Plan.Agree.{Fits}

module _ (qc : QConf) (faithful : IsFaithful qc) (o : ResourceOptions) (value : Text) where
  open qc use {State, view}

  abbrev Carries : {A : Type 0} → List Obligation → Action State A → Type 0
  Carries obligations m = Reaches qc (Fits o value) obligations m

  carry :
      {A B : Type 0} (xs ys : List Obligation) (m : Action State A) (n : Action State B)
      → Carries xs m
      → Carries ys n
      → Carries (xs ++ ys) (m >> n)
  carry = Reaches-then qc (Fits o value)

  value_one :
      (host k v : Text)
      → Fits o value (has_value host k v)
      → Carries (has_value host k v ∷ []) (set_exec_host_resource qc host k v)
  value_one host k v g =
      Reaches-one qc (Fits o value) (has_value host k v) _ g
        (set_exec_host_resource-Fulfils qc faithful host k v)

  ensure_slots-Reaches :
      (host : Text) → Carries (slots_obligation o host ∷ []) (ensure_slots qc o host)
  unfolding ensure_slots
  ensure_slots-Reaches host = elim (Bool-cases (is_positive o.slots_capacity)) [
    | inl e ↦
        rw e (value_one host o.slots_name (format_int o.slots_capacity) (inr (inl (refl, refl, e))))
    | inr e ↦ rw e (
        Reaches-one qc (Fits o value) (lacks_value host o.slots_name) _ (refl, e)
          (clear_exec_host_resource-Fulfils qc faithful host o.slots_name))
  ]

  entry_one :
      (d : ComplexEntry)
      → Fits o value (has_entry d)
      → Carries (has_entry d ∷ []) (ensure_complex_entry qc d)
  entry_one d g =
      Reaches-one qc (Fits o value) (has_entry d) _ g (ensure_complex_entry-Fulfils qc faithful d)

  ensure_hosts-Reaches :
      (hosts : List Text) → Carries (host_obligations o value hosts) (ensure_hosts qc o value hosts)
  unfolding ensure_hosts
  ensure_hosts-Reaches [] = Reaches-pure qc (Fits o value) tt
  ensure_hosts-Reaches (host ∷ hosts) =
      carry _ _ _ _ (value_one host qpu_name value (inl (refl, refl))) (
        carry _ _ _ _
          (Reaches-when qc (Fits o value) (o.enable_slots && text_eq o.slots_scope (codes "host"))
            (slots_obligation o host ∷ []) (ensure_slots qc o host) (ensure_slots-Reaches host))
          (ensure_hosts-Reaches hosts))

  ensure_load_sensor-Reaches : Carries (sensor_obligations o) (ensure_load_sensor qc o)
  unfolding ensure_load_sensor
  ensure_load_sensor-Reaches =
      carry _ _ _ _ (entry_one (qpu_ready_complex_entry o.ready_name) (inr (inr refl))) (
        carry _ _ _ _ (value_one global_host o.ready_name (codes "1") (inr (inr (refl, refl)))) (
          Reaches-one qc (Fits o value) (runs_sensor o.load_sensor_host o.load_sensor_path) _ refl
            (configure_host_load_sensor-Fulfils qc faithful o.load_sensor_host o.load_sensor_path)))

  pub ensure_resource_default-Reaches :
      (hosts : List Text) → Carries (plan o hosts value) (ensure_resource_default qc o hosts value)
  unfolding ensure_resource_default
  ensure_resource_default-Reaches hosts = carry _ _ _ _ (entry_one qpu_complex_entry (inl refl)) (
      carry _ _ _ _
        (Reaches-when qc (Fits o value) o.enable_slots
          (has_entry (qpu_slots_complex_entry o.slots_name) ∷ []) _
          (carry (has_entry (qpu_slots_complex_entry o.slots_name) ∷ []) [] _ _
            (entry_one (qpu_slots_complex_entry o.slots_name) (inr (inl refl)))
            (Reaches-pure qc (Fits o value) tt)))
        (carry _ _ _ _
          (Reaches-when qc (Fits o value) o.enable_load_sensor (sensor_obligations o) _
            ensure_load_sensor-Reaches)
          (carry _ _ _ _
            (Reaches-when qc (Fits o value) (o.enable_slots && text_eq o.slots_scope global_host)
              (slots_obligation o global_host ∷ []) _ (ensure_slots-Reaches global_host))
            (ensure_hosts-Reaches hosts))))
