-- ===== src/Adapter/Resource/Plan/Entries.antt =====
-- ensureComplexEntry of src/cmd/gridware-adapter/main.go fulfils its obligation.
use qpu_resource.Prelude.{
  true, false, ◌≡◌, refl, sym, ◌∙◌, ap, inl, inr, some, Text, text_eq_refl, Bool-cases,
  some_injective,
}
use qpu_resource.Prelude.Int.{int_eq_refl}
use qpu_resource.Strings.{equal_fold}
use qpu_resource.Errors.{Error, failed, Result, ok, err, reply, Reply-cases}
use qpu_resource.Adapter.QConf.{ComplexEntry, Configuration, QConf, IsFaithful, put_self}
use qpu_resource.Adapter.Action.{continue, attempt, pure, call, wrapping, ◌>>=◌}
use qpu_resource.Adapter.Resource.{
  complex_entry_matches, entry_of, change_complex_entry, ensure_complex_entry,
}
use qpu_resource.Adapter.Resource.Plan.{Obligation, has_entry}
use qpu_resource.Adapter.Resource.Plan.Fulfil.{Fulfilled, Fulfils, already, written, after_show}

module _ (qc : QConf) where
  open qc use {State, Rest, view}

  matches_itself :
      (n : Text) (d : ComplexEntry) → complex_entry_matches (record d { name = n }) d ≡ true
  unfolding complex_entry_matches equal_fold
  matches_itself n d = simp (text_eq_refl, int_eq_refl)

  module _ (faithful : IsFaithful qc) (d : ComplexEntry) where
    abbrev entry_ob : Obligation
    entry_ob = has_entry d

    then_pure :
        {A B : Type 0} {c : Configuration Rest} (r : Result A) (s : State) (b : B)
        → Fulfilled qc entry_ob c (r, s)
        → Fulfilled qc entry_ob c (continue r (λ _. pure b) s)
    unfolding pure
    then_pure (ok a) s b h = record { changed = h.changed; good = λ _. h.good tt }
    then_pure (err e) s b h = record { changed = h.changed; good = λ x. elim x [ ] }

    added :
        (e : Error) (s : State)
        → Fulfilled qc entry_ob (view s) (change_complex_entry qc d (err e) s)
    unfolding pure wrapping call ◌>>=◌
    added e s =
        let (good, bad) = (faithful.adds_complex_entry d).0 s in
        let new = (faithful.adds_complex_entry d).1 s in
        then_pure _ (qc.add_complex_entry d s).1 true (
          written qc entry_ob _ _ (qc.add_complex_entry d s).0 good bad
            (λ h. (λ (x, at, eq). cc (sym (new h) ∙ at), (d, matches_itself d.name d, refl)))
            (d, put_self d.name d (view s).complex_entry, matches_itself d.name d))

    modified :
        (e : ComplexEntry) (s : State)
        → (view s).complex_entry d.name ≡ some e
        → Fulfilled qc entry_ob (view s) (change_complex_entry qc d (ok e) s)
    unfolding pure wrapping call ◌>>=◌
    modified e s found = elim (Bool-cases (complex_entry_matches e d)) [
      | inl t ↦ rw t (already qc entry_ob s false (e, found, t))
      | inr t ↦ rw t (
          let (good, bad) = faithful.modifies_complex_entry d.name (entry_of e d) s in
          then_pure _ (qc.modify_complex_entry d.name (entry_of e d) s).1 true (
            written qc entry_ob _ _ (qc.modify_complex_entry d.name (entry_of e d) s).0 good bad
              (λ _. (
                λ (x, at, eq). cc (
                    sym t
                    ∙ ap (λ y. complex_entry_matches y d) (some_injective (sym found ∙ at))
                    ∙ eq),
                (entry_of e d, matches_itself e.name d, refl),
              ))
              (
                entry_of e d,
                put_self d.name (entry_of e d) (view s).complex_entry,
                matches_itself e.name d,
              )))
    ]

    pub ensure_complex_entry-Fulfils : Fulfils qc entry_ob (ensure_complex_entry qc d)
    unfolding ensure_complex_entry attempt call ◌>>=◌
    ensure_complex_entry-Fulfils = record {
      at =
          after_show qc entry_ob (λ c. c.complex_entry d.name) (qc.show_complex_entry d.name)
            (λ r. change_complex_entry qc d (reply r)) (faithful.shows_complex_entry d.name)
            (λ r s found. elim (Reply-cases r) [
              | inl (e, h) ↦ rw h (modified e s (found e h))
              | inr (x, h) ↦ rw h (added (failed x) s)
            ]);
    }
