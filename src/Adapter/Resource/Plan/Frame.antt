-- ===== src/Adapter/Resource/Plan/Frame.antt =====
-- What ensureResourceDefault of src/cmd/gridware-adapter/main.go leaves as it was.
use qpu_resource.Prelude.{
  Bool, true, false, List, [], ◌∷◌, ◌≡◌, ◌≢◌, refl, sym, ◌∙◌, ap, inl, inr, Option, some, Text,
  text_eq, text_eq_iff, Bool-cases, All, Any-All, contains, contains_ne,
}
use mathlib.Core.Path.{subst}
use mathlib.Core.Option
use qpu_resource.Dict.{lookup, lookup-insert, lookup-erase}
use qpu_resource.Adapter.Options.{ResourceOptions, global_host}
use qpu_resource.Adapter.QConf.{ExecHost, Configuration, QConf, put}
use qpu_resource.Adapter.Resource.{qpu_name}
use qpu_resource.Adapter.Resource.Plan.{
  Obligation, has_entry, has_value, lacks_value, runs_sensor, Changes, change, Reach, here, next,
}

put_other : {A : Type 0} (f : Text → Option A) (k j : Text) (a : A) → j ≢ k → put j a f k ≡ f k
put_other f k j a n = elim (Bool-cases (text_eq j k)) [
  | inl e ↦ absurd (n ((text_eq_iff j k).0 e))
  | inr e ↦ rw e refl
]

module _ (qc : QConf) (o : ResourceOptions) (hosts : List Text) where
  open qc use {State, Rest, view}

  -- What is stored of a host: the value of a resource, and the fields that the code does not know.
  abbrev pub part_of : Text → ExecHost Rest → Option Text × Rest
  part_of k h = (lookup k h.complex_values, h.rest)

  abbrev pub is_resource : Text → Bool
  is_resource = contains (qpu_name ∷ o.slots_name ∷ o.ready_name ∷ [])

  abbrev pub is_target : Text → Bool
  is_target = contains (global_host ∷ hosts)

  -- The queues and the global configuration, the complex entries of other names, the other hosts,
  -- the other values of every host, and the configurations of hosts without the load sensor.
  pub record LeavesAlone (c c' : Configuration Rest) : Type 0 where
    pub queues : (k : Text) → c'.cluster_queue k ≡ c.cluster_queue k
    pub globals : c'.global_configuration ≡ c.global_configuration
    pub entries : (k : Text) → is_resource k ≡ false → c'.complex_entry k ≡ c.complex_entry k
    pub other_hosts : (h : Text) → is_target h ≡ false → c'.exec_host h ≡ c.exec_host h
    pub values :
        (h k : Text)
        → is_resource k ≡ false
        → Option.map (part_of k) (c'.exec_host h) ≡ Option.map (part_of k) (c.exec_host h)
    pub sensors :
        (h : Text) → h ≢ o.load_sensor_host → c'.host_configuration h ≡ c.host_configuration h

  LeavesAlone-refl : (c : Configuration Rest) → LeavesAlone c c
  LeavesAlone-refl c = record {
    queues = λ k. refl;
    globals = refl;
    entries = λ k _. refl;
    other_hosts = λ h _. refl;
    values = λ h k _. refl;
    sensors = λ h _. refl;
  }

  LeavesAlone-trans :
      (a b c : Configuration Rest) → LeavesAlone a b → LeavesAlone b c → LeavesAlone a c
  LeavesAlone-trans a b c x y = record {
    queues = λ k. y.queues k ∙ x.queues k;
    globals = y.globals ∙ x.globals;
    entries = λ k n. y.entries k n ∙ x.entries k n;
    other_hosts = λ h n. y.other_hosts h n ∙ x.other_hosts h n;
    values = λ h k n. y.values h k n ∙ x.values h k n;
    sensors = λ h n. y.sensors h n ∙ x.sensors h n;
  }

  -- One host gets another configuration, in which the other values are the same.
  host_changed :
      (c : Configuration Rest) (host : Text) (x new : ExecHost Rest)
      → is_target host ≡ true
      → c.exec_host host ≡ some x
      → ((k : Text) → is_resource k ≡ false → part_of k new ≡ part_of k x)
      → LeavesAlone c (record c { exec_host = put host new c.exec_host })
  host_changed c host x new t at same = record {
    queues = λ k. refl;
    globals = refl;
    entries = λ k _. refl;
    other_hosts = λ h n. put_other c.exec_host h host new (contains_ne (global_host ∷ hosts) t n);
    values = λ h k n. elim (Bool-cases (text_eq host h)) [
      | inl e ↦ rw e (
          ap some (same k n)
          ∙ sym
              (ap (Option.map (part_of k)) (ap c.exec_host (sym ((text_eq_iff host h).0 e)) ∙ at)))
      | inr e ↦ rw e refl
    ];
    sensors = λ h _. refl;
  }

  -- The place of an obligation.
  abbrev pub Places : Obligation → Type 0
  Places (has_entry d) = is_resource d.name ≡ true
  Places (has_value host k v) = (is_target host ≡ true) × (is_resource k ≡ true)
  Places (lacks_value host k) = (is_target host ≡ true) × (is_resource k ≡ true)
  Places (runs_sensor host path) = host ≡ o.load_sensor_host

  Changes-LeavesAlone :
      (ob : Obligation) (c c' : Configuration Rest)
      → Places ob
      → Changes qc ob c c'
      → LeavesAlone c c'
  Changes-LeavesAlone (has_entry d) c c' p (e, m, eq) = subst (LeavesAlone c) (sym eq) (record {
    queues = λ k. refl;
    globals = refl;
    entries = λ k n. put_other c.complex_entry k d.name e (contains_ne _ p n);
    other_hosts = λ h _. refl;
    values = λ h k _. refl;
    sensors = λ h _. refl;
  })
  Changes-LeavesAlone (has_value host k v) c c' (t, r) (x, at, eq) =
      subst (LeavesAlone c) (sym eq) (
        host_changed c host x _ t at (λ j n.
          ap (λ (w : Option Text). (w, x.rest))
            (lookup-insert k j v x.complex_values ∙ elim (Bool-cases (text_eq k j)) [
              | inl e ↦ absurd (contains_ne _ r n ((text_eq_iff k j).0 e))
              | inr e ↦ rw e refl
            ])))
  Changes-LeavesAlone (lacks_value host k) c c' (t, r) (x, at, eq) =
      subst (LeavesAlone c) (sym eq) (
        host_changed c host x _ t at (λ j n.
          ap (λ (w : Option Text). (w, x.rest))
            (lookup-erase k j x.complex_values ∙ elim (Bool-cases (text_eq k j)) [
              | inl e ↦ absurd (contains_ne _ r n ((text_eq_iff k j).0 e))
              | inr e ↦ rw e refl
            ])))
  Changes-LeavesAlone (runs_sensor host path) c c' p eq = subst (LeavesAlone c) (sym eq) (record {
    queues = λ k. refl;
    globals = refl;
    entries = λ k _. refl;
    other_hosts = λ h _. refl;
    values = λ h k _. refl;
    sensors = λ h n. put_other c.host_configuration h host _ (λ e. n (sym e ∙ p));
  })

  pub Reach-LeavesAlone :
      (obligations : List Obligation) {c c' : Configuration Rest}
      → All Places obligations
      → Reach qc obligations c c'
      → LeavesAlone c c'
  Reach-LeavesAlone obligations p here = LeavesAlone-refl _
  Reach-LeavesAlone obligations p (next r (change ob m n ch)) =
      LeavesAlone-trans _ _ _ (Reach-LeavesAlone obligations p r)
        (Changes-LeavesAlone ob _ _ (Any-All Places ob obligations m p) ch)
