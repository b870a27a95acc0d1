-- ===== src/Adapter/Resource/Plan/Stays.antt =====
-- An obligation that holds stays so under the changes that other obligations allow, provided that
-- they ask for nothing else at the same place.
use qpu_resource.Prelude.{
  true, ◌≡◌, refl, sym, ◌∙◌, ap, ◌≢◌, inl, inr, Option, none, some, Text, text_eq, text_eq_iff,
  Bool-cases, some_injective,
}
use mathlib.Core.Path.{subst}
use qpu_resource.Dict.{
  Dict, lookup, value_of, insert, erase, value_of-insert, lookup-insert, value_of-erase,
  lookup-erase,
}
use qpu_resource.Adapter.{with_load_sensor}
use qpu_resource.Adapter.QConf.{ExecHost, Configuration, QConf, put}
use qpu_resource.Adapter.Resource.{complex_entry_matches, with_value, without_value}
use qpu_resource.Adapter.Resource.Plan.{
  Obligation, has_entry, has_value, lacks_value, runs_sensor, Holds, Changes, sensor_configuration,
}
use qpu_resource.Adapter.Resource.Plan.Sensor.{sensor_configuration_runs}

abbrev pub Compatible : Obligation → Obligation → Type 0
Compatible (has_entry d) (has_entry d') = d'.name ≡ d.name → d' ≡ d
Compatible (has_value host k v) (has_value host' k' v') = k' ≡ k → v' ≡ v
Compatible (has_value host k v) (lacks_value host' k') = k' ≢ k
Compatible (lacks_value host k) (has_value host' k' v') = k' ≢ k
Compatible (runs_sensor host path) (runs_sensor host' path') = path' ≡ path
Compatible _ _ = Unit

-- An entry of a map with some property, when an entry is replaced.
put_holds :
    {A : Type 0} (P : A → Type 0) (f : Text → Option A) (k j : Text) (new : A)
    → (j ≡ k → (a : A) → f k ≡ some a → P a → P new)
    → (a : A) × (f k ≡ some a) × P a
    → (a : A) × (put j new f k ≡ some a) × P a
put_holds P f k j new keep (a, at, p) = elim (Bool-cases (text_eq j k)) [
  | inl e ↦ (new, rw e refl, keep ((text_eq_iff j k).0 e) a at p)
  | inr e ↦ (a, rw e at, p)
]

module _ (k k' v v' : Text) (d : Dict Text) where
  value_insert : (k' ≡ k → v' ≡ v) → value_of k d ≡ v → value_of k (insert k' v' d) ≡ v
  value_insert c h = elim (Bool-cases (text_eq k' k)) [
    | inl e ↦ rw (value_of-insert k' k v' d, e) (c ((text_eq_iff k' k).0 e))
    | inr e ↦ rw (value_of-insert k' k v' d, e) h
  ]

  value_erase : k' ≢ k → value_of k d ≡ v → value_of k (erase k' d) ≡ v
  value_erase n h = elim (Bool-cases (text_eq k' k)) [
    | inl e ↦ absurd (n ((text_eq_iff k' k).0 e))
    | inr e ↦ rw (value_of-erase k' k d, e) h
  ]

module _ (k k' : Text) (d : Dict Text) where
  lacks_insert : (v' : Text) → k' ≢ k → lookup k d ≡ none → lookup k (insert k' v' d) ≡ none
  lacks_insert v' n h = elim (Bool-cases (text_eq k' k)) [
    | inl e ↦ absurd (n ((text_eq_iff k' k).0 e))
    | inr e ↦ rw (lookup-insert k' k v' d, e) h
  ]

  lacks_erase : lookup k d ≡ none → lookup k (erase k' d) ≡ none
  lacks_erase h = elim (Bool-cases (text_eq k' k)) [
    | inl e ↦ rw (lookup-erase k' k d, e) refl
    | inr e ↦ rw (lookup-erase k' k d, e) h
  ]

module _ (qc : QConf) where
  open qc use {Rest}

  -- The host that is shown is the host that is stored.
  module _ (c : Configuration Rest) (P : ExecHost Rest → Type 0) where
    host_holds :
        (host host' : Text) (h new : ExecHost Rest)
        → c.exec_host host' ≡ some h
        → (P h → P new)
        → (a : ExecHost Rest) × (c.exec_host host ≡ some a) × P a
        → (a : ExecHost Rest) × (put host' new c.exec_host host ≡ some a) × P a
    host_holds host host' h new found keep = put_holds P c.exec_host host host' new (λ same a at p.
        keep (subst P (some_injective (sym at ∙ ap c.exec_host (sym same) ∙ found)) p))

  pub Holds-Changes :
      (a b : Obligation) (c c' : Configuration Rest)
      → Compatible a b
      → Holds qc a c
      → Changes qc b c c'
      → Holds qc a c'
  Holds-Changes (has_entry d) (has_entry d') c c' same h (e, m, eq) =
      subst (Holds qc (has_entry d)) (sym eq) (
        put_holds (λ x. complex_entry_matches x d ≡ true) c.complex_entry d.name d'.name e
          (λ n _ _ _. subst (λ y. complex_entry_matches e y ≡ true) (same n) m) h)
  Holds-Changes (has_entry d) (has_value host' k' v') c c' _ h (x, at, eq) =
      subst (Holds qc (has_entry d)) (sym eq) h
  Holds-Changes (has_entry d) (lacks_value host' k') c c' _ h (x, at, eq) =
      subst (Holds qc (has_entry d)) (sym eq) h
  Holds-Changes (has_entry d) (runs_sensor host' path') c c' _ h eq =
      subst (Holds qc (has_entry d)) (sym eq) h
  Holds-Changes (has_value host k v) (has_entry d') c c' _ h (e, m, eq) =
      subst (Holds qc (has_value host k v)) (sym eq) h
  Holds-Changes (has_value host k v) (has_value host' k' v') c c' same h (x, at, eq) =
      subst (Holds qc (has_value host k v)) (sym eq) (
        host_holds c (λ y. value_of k y.complex_values ≡ v) host host' x
          (with_value qc host' k' v' x) at (value_insert k k' v v' x.complex_values same) h)
  Holds-Changes (has_value host k v) (lacks_value host' k') c c' other h (x, at, eq) =
      subst (Holds qc (has_value host k v)) (sym eq) (
        host_holds c (λ y. value_of k y.complex_values ≡ v) host host' x
          (without_value qc host' k' x) at (value_erase k k' v v x.complex_values other) h)
  Holds-Changes (has_value host k v) (runs_sensor host' path') c c' _ h eq =
      subst (Holds qc (has_value host k v)) (sym eq) h
  Holds-Changes (lacks_value host k) (has_entry d') c c' _ h (e, m, eq) =
      subst (Holds qc (lacks_value host k)) (sym eq) h
  Holds-Changes (lacks_value host k) (has_value host' k' v') c c' other h (x, at, eq) =
      subst (Holds qc (lacks_value host k)) (sym eq) (
        host_holds c (λ y. lookup k y.complex_values ≡ none) host host' x
          (with_value qc host' k' v' x) at (lacks_insert k k' x.complex_values v' other) h)
  Holds-Changes (lacks_value host k) (lacks_value host' k') c c' _ h (x, at, eq) =
      subst (Holds qc (lacks_value host k)) (sym eq) (
        host_holds c (λ y. lookup k y.complex_values ≡ none) host host' x
          (without_value qc host' k' x) at (lacks_erase k k' x.complex_values) h)
  Holds-Changes (lacks_value host k) (runs_sensor host' path') c c' _ h eq =
      subst (Holds qc (lacks_value host k)) (sym eq) h
  Holds-Changes (runs_sensor host path) (runs_sensor host' path') c c' same h eq =
      subst (Holds qc (runs_sensor host path)) (sym eq) (
        put_holds (λ y. with_load_sensor y.load_sensors path ≡ y.load_sensors) c.host_configuration
          host host' (sensor_configuration qc host' path' (c.host_configuration host'))
          (λ _ _ _ _.
            subst
              (λ p.
                with_load_sensor
                  (sensor_configuration qc host' path' (c.host_configuration host')).load_sensors p
                ≡ (sensor_configuration qc host' path' (c.host_configuration host')).load_sensors)
              same (sensor_configuration_runs qc host' path' (c.host_configuration host')))
          h)
  Holds-Changes (runs_sensor host path) (has_entry d') c c' _ h (e, m, eq) =
      subst (Holds qc (runs_sensor host path)) (sym eq) h
  Holds-Changes (runs_sensor host path) (has_value host' k' v') c c' _ h (e, m, eq) =
      subst (Holds qc (runs_sensor host path)) (sym eq) h
  Holds-Changes (runs_sensor host path) (lacks_value host' k') c c' _ h (e, m, eq) =
      subst (Holds qc (runs_sensor host path)) (sym eq) h
