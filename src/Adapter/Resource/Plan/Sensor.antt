-- ===== src/Adapter/Resource/Plan/Sensor.antt =====
-- configureHostLoadSensor of src/cmd/gridware-adapter/main.go fulfils its obligation.
use qpu_resource.Prelude.{
  ◌≡◌, sym, ◌∙◌, ap, inl, inr, Option, none, some, Text, texts_eq, texts_eq_iff, Bool-cases,
  texts_ne, some_injective, [], ◌∷◌,
}
use qpu_resource.Errors.{Error, failed, ok, err, reply, Reply-cases}
use qpu_resource.Adapter.{with_load_sensor}
use qpu_resource.Adapter.Sensors.{with_load_sensor-OthersOf}
use qpu_resource.Adapter.QConf.{HostConfiguration, QConf, IsFaithful, put, put_self}
use qpu_resource.Adapter.Action.{attempt, pure, call, wrapping, ◌>>=◌}
use qpu_resource.Adapter.Resource.{
  change_load_sensors, new_host_configuration, with_sensor, configure_host_load_sensor,
}
use qpu_resource.Adapter.Resource.Plan.{sensor_configuration, Obligation, runs_sensor}
use qpu_resource.Adapter.Resource.Plan.Fulfil.{Fulfilled, Fulfils, already, written, after_show}

installed_alone : (path : Text) → with_load_sensor (path ∷ []) path ≡ path ∷ []
unfolding with_load_sensor
installed_alone path = (with_load_sensor-OthersOf [] path).1

module _ (qc : QConf) where
  open qc use {State, Rest, view}

  module _ (faithful : IsFaithful qc) (host path : Text) where
    abbrev sensor_ob : Obligation
    sensor_ob = runs_sensor host path

    sensor_added :
        (e : Error) (s : State)
        → Fulfilled qc sensor_ob (view s) (change_load_sensors qc host path (err e) s)
    unfolding wrapping call
    sensor_added e s =
        let new_host = new_host_configuration qc host path in
        let (good, bad) = (faithful.adds_host_configuration new_host).0 s in
        let new = (faithful.adds_host_configuration new_host).1 s in
        written qc sensor_ob _ _ (qc.add_host_configuration new_host s).0 good bad
          (λ h. (
            λ (x, at, eq). cc (sym (new h) ∙ at),
            λ i. record (view s) {
              host_configuration =
                  put host (sensor_configuration qc host path (sym (new h) i))
                    (view s).host_configuration;
            },
          ))
          (new_host, put_self host new_host (view s).host_configuration, installed_alone path)

    sensor_modified :
        (h : HostConfiguration Rest) (s : State)
        → (view s).host_configuration host ≡ some h
        → Fulfilled qc sensor_ob (view s) (change_load_sensors qc host path (ok h) s)
    unfolding pure wrapping call
    sensor_modified h s found =
        elim (Bool-cases (texts_eq (with_load_sensor h.load_sensors path) h.load_sensors)) [
          | inl t ↦ rw t (already qc sensor_ob s tt (h, found, (texts_eq_iff _ _).0 t))
          | inr t ↦ rw t (
              let (good, bad) =
                faithful.modifies_host_configuration host (with_sensor qc host path h) s in
              written qc sensor_ob _ _
                (qc.modify_host_configuration host (with_sensor qc host path h) s).0 good bad
                (λ _. (
                  λ (x, at, eq). texts_ne t (
                      ap (λ y. with_load_sensor y.load_sensors path)
                        (some_injective (sym found ∙ at))
                      ∙ eq
                      ∙ ap (λ y. y.load_sensors) (some_injective (sym at ∙ found))),
                  λ i. record (view s) {
                    host_configuration =
                        put host (sensor_configuration qc host path (sym found i))
                          (view s).host_configuration;
                  },
                ))
                (
                  with_sensor qc host path h,
                  put_self host (with_sensor qc host path h) (view s).host_configuration,
                  (with_load_sensor-OthersOf h.load_sensors path).1,
                ))
        ]

    pub configure_host_load_sensor-Fulfils :
        Fulfils qc sensor_ob (configure_host_load_sensor qc host path)
    unfolding configure_host_load_sensor attempt call ◌>>=◌
    configure_host_load_sensor-Fulfils = record {
      at =
          after_show qc sensor_ob (λ c. c.host_configuration host) (qc.show_host_configuration host)
            (λ r. change_load_sensors qc host path (reply r))
            (faithful.shows_host_configuration host)
            (λ r s found. elim (Reply-cases r) [
              | inl (h, e) ↦ rw e (sensor_modified h s (found h e))
              | inr (x, e) ↦ rw e (sensor_added (failed x) s)
            ]);
    }

  -- The configuration that a change leaves runs the sensor.
  pub sensor_configuration_runs :
      (host path : Text) (old : Option (HostConfiguration Rest))
      → with_load_sensor (sensor_configuration qc host path old).load_sensors path
        ≡ (sensor_configuration qc host path old).load_sensors
  sensor_configuration_runs host path none = installed_alone path
  sensor_configuration_runs host path (some h) = (with_load_sensor-OthersOf h.load_sensors path).1
