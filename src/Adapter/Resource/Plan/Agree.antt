-- ===== src/Adapter/Resource/Plan/Agree.antt =====
-- The obligations of a plan do not disagree, where the resources have different names.
use qpu_resource.Prelude.{true, false, ◌≡◌, ◌≢◌, sym, ◌∙◌, ap, ◌⊎◌, inl, inr, Text, codes}
use qpu_resource.Prelude.Int.{is_positive}
use qpu_resource.Decimal.{format_int}
use qpu_resource.Adapter.Options.{ResourceOptions}
use qpu_resource.Adapter.QConf.{ComplexEntry}
use qpu_resource.Adapter.Resource.{
  qpu_name, qpu_complex_entry, qpu_slots_complex_entry, qpu_ready_complex_entry,
}
use qpu_resource.Adapter.Resource.Plan.{Obligation, has_entry, has_value, lacks_value, runs_sensor}
use qpu_resource.Adapter.Resource.Plan.Stays.{Compatible}

-- The three resources have different names.
pub record HasDistinctNames (o : ResourceOptions) : Type 0 where
  pub slots_qpu : o.slots_name ≢ qpu_name
  pub ready_qpu : o.ready_name ≢ qpu_name
  pub slots_ready : o.slots_name ≢ o.ready_name

module _ (o : ResourceOptions) (value : Text) where
  -- What a plan with these options and this value may ask for.
  abbrev pub Fits : Obligation → Type 0
  Fits (has_entry d) =
      (d ≡ qpu_complex_entry)
      ⊎ ((d ≡ qpu_slots_complex_entry o.slots_name) ⊎ (d ≡ qpu_ready_complex_entry o.ready_name))
  Fits (has_value host k v) =
      ((k ≡ qpu_name) × (v ≡ value))
      ⊎ (((k ≡ o.slots_name)
            × (v ≡ format_int o.slots_capacity)
            × (is_positive o.slots_capacity ≡ true))
          ⊎ ((k ≡ o.ready_name) × (v ≡ codes "1")))
  Fits (lacks_value host k) = (k ≡ o.slots_name) × (is_positive o.slots_capacity ≡ false)
  Fits (runs_sensor host path) = path ≡ o.load_sensor_path

  module _ (distinct : HasDistinctNames o) where
    agree_entries :
        (d d' : ComplexEntry) → Fits (has_entry d) → Fits (has_entry d') → d'.name ≡ d.name → d' ≡ d
    unfolding qpu_complex_entry qpu_slots_complex_entry qpu_ready_complex_entry
    agree_entries d d' (inl p) (inl q) n = q ∙ sym p
    agree_entries d d' (inr (inl p)) (inr (inl q)) n = q ∙ sym p
    agree_entries d d' (inr (inr p)) (inr (inr q)) n = q ∙ sym p
    agree_entries d d' (inl p) (inr (inl q)) n =
        absurd (distinct.slots_qpu (sym (ap (λ e. e.name) q) ∙ n ∙ ap (λ e. e.name) p))
    agree_entries d d' (inl p) (inr (inr q)) n =
        absurd (distinct.ready_qpu (sym (ap (λ e. e.name) q) ∙ n ∙ ap (λ e. e.name) p))
    agree_entries d d' (inr (inl p)) (inl q) n =
        absurd (distinct.slots_qpu (sym (ap (λ e. e.name) p) ∙ sym n ∙ ap (λ e. e.name) q))
    agree_entries d d' (inr (inl p)) (inr (inr q)) n =
        absurd (distinct.slots_ready (sym (ap (λ e. e.name) p) ∙ sym n ∙ ap (λ e. e.name) q))
    agree_entries d d' (inr (inr p)) (inl q) n =
        absurd (distinct.ready_qpu (sym (ap (λ e. e.name) p) ∙ sym n ∙ ap (λ e. e.name) q))
    agree_entries d d' (inr (inr p)) (inr (inl q)) n =
        absurd (distinct.slots_ready (sym (ap (λ e. e.name) q) ∙ n ∙ ap (λ e. e.name) p))

    agree_values :
        (h k v h' k' v' : Text)
        → Fits (has_value h k v)
        → Fits (has_value h' k' v')
        → k' ≡ k
        → v' ≡ v
    agree_values h k v h' k' v' (inl (a, b)) (inl (c, d)) n = d ∙ sym b
    agree_values h k v h' k' v' (inr (inl (a, b, _))) (inr (inl (c, d, _))) n = d ∙ sym b
    agree_values h k v h' k' v' (inr (inr (a, b))) (inr (inr (c, d))) n = d ∙ sym b
    agree_values h k v h' k' v' (inl (a, b)) (inr (inl (c, d, _))) n =
        absurd (distinct.slots_qpu (sym c ∙ n ∙ a))
    agree_values h k v h' k' v' (inl (a, b)) (inr (inr (c, d))) n =
        absurd (distinct.ready_qpu (sym c ∙ n ∙ a))
    agree_values h k v h' k' v' (inr (inl (a, b, _))) (inl (c, d)) n =
        absurd (distinct.slots_qpu (sym a ∙ sym n ∙ c))
    agree_values h k v h' k' v' (inr (inl (a, b, _))) (inr (inr (c, d))) n =
        absurd (distinct.slots_ready (sym a ∙ sym n ∙ c))
    agree_values h k v h' k' v' (inr (inr (a, b))) (inl (c, d)) n =
        absurd (distinct.ready_qpu (sym a ∙ sym n ∙ c))
    agree_values h k v h' k' v' (inr (inr (a, b))) (inr (inl (c, d, _))) n =
        absurd (distinct.slots_ready (sym c ∙ n ∙ a))

    agree_value_lack :
        (h k v h' k' : Text) → Fits (has_value h k v) → Fits (lacks_value h' k') → k' ≢ k
    agree_value_lack h k v h' k' (inl (a, b)) (c, d) n = distinct.slots_qpu (sym c ∙ n ∙ a)
    agree_value_lack h k v h' k' (inr (inl (a, b, e))) (c, d) n = cc (sym d ∙ e)
    agree_value_lack h k v h' k' (inr (inr (a, b))) (c, d) n = distinct.slots_ready (sym c ∙ n ∙ a)

    pub agree : (a b : Obligation) → Fits a → Fits b → Compatible a b
    agree (has_entry d) (has_entry d') p q = agree_entries d d' p q
    agree (has_value h k v) (has_value h' k' v') p q = agree_values h k v h' k' v' p q
    agree (has_value h k v) (lacks_value h' k') p q = agree_value_lack h k v h' k' p q
    agree (lacks_value h k) (has_value h' k' v') p q =
        λ n. agree_value_lack h' k' v' h k q p (sym n)
    agree (runs_sensor host path) (runs_sensor host' path') p q = q ∙ sym p
    agree (lacks_value host k) (lacks_value host' k') p q = tt
    agree (has_entry d) (has_value _ _ _) p q = tt
    agree (has_entry d) (lacks_value _ _) p q = tt
    agree (has_entry d) (runs_sensor _ _) p q = tt
    agree (has_value _ _ _) (has_entry _) p q = tt
    agree (has_value _ _ _) (runs_sensor _ _) p q = tt
    agree (lacks_value _ _) (has_entry _) p q = tt
    agree (lacks_value _ _) (runs_sensor _ _) p q = tt
    agree (runs_sensor _ _) (has_entry _) p q = tt
    agree (runs_sensor _ _) (has_value _ _ _) p q = tt
    agree (runs_sensor _ _) (lacks_value _ _) p q = tt
