-- ===== src/Adapter/Resource/Plan/Values.antt =====
-- setExecHostResource and clearExecHostResource of src/cmd/gridware-adapter/main.go fulfil their
-- obligations.
use qpu_resource.Prelude.{
  ◌≡◌, refl, sym, ◌∙◌, ap, inl, inr, none, some, Text, text_eq, text_eq_iff, text_eq_refl,
  if◌then◌else◌, Bool-cases, text_ne, some_injective, Option-cases, [], ◌∷◌,
}
use qpu_resource.Dict.{lookup, value_of, value_of-insert, lookup-erase}
use qpu_resource.Errors.{wrapf, reply, Reply-cases}
use qpu_resource.Adapter.QConf.{ExecHost, QConf, IsFaithful, put_self}
use qpu_resource.Adapter.Action.{change_error, continue, pure, call, wrapping, ◌>>=◌}
use qpu_resource.Adapter.Resource.{
  set_exec_host_resource, clear_exec_host_resource, with_value, without_value, store_value,
  remove_value,
}
use qpu_resource.Adapter.Resource.Plan.{has_value, lacks_value}
use qpu_resource.Adapter.Resource.Plan.Fulfil.{
  Fulfilled, Fulfils, failed_call, already, written, after_show,
}

module _ (qc : QConf) where
  open qc use {State, Rest, view}

  module _ (faithful : IsFaithful qc) (host k : Text) where
    module _ (v : Text) where
      stored :
          (h : ExecHost Rest) (s : State)
          → (view s).exec_host host ≡ some h
          → Fulfilled qc (has_value host k v) (view s) (store_value qc host k v h s)
      unfolding pure wrapping call
      stored h s found = elim (Bool-cases (text_eq (value_of k h.complex_values) v)) [
        | inl e ↦ rw e (already qc (has_value host k v) s tt (h, found, (text_eq_iff _ _).0 e))
        | inr e ↦ rw e (
            let (good, bad) = faithful.modifies_exec_host host (with_value qc host k v h) s in
            written qc (has_value host k v) _ _
              (qc.modify_exec_host host (with_value qc host k v h) s).0 good bad
              (λ _. (
                λ (h', at, eq).
                    text_ne e (
                      ap (λ x. value_of k x.complex_values) (some_injective (sym found ∙ at)) ∙ eq),
                (h, found, refl),
              ))
              (
                with_value qc host k v h,
                put_self host (with_value qc host k v h) (view s).exec_host,
                value_of-insert k k v h.complex_values
                    ∙ ap (λ b. if b then v else value_of k h.complex_values) (text_eq_refl k),
              ))
      ]

      pub set_exec_host_resource-Fulfils :
          Fulfils qc (has_value host k v) (set_exec_host_resource qc host k v)
      unfolding set_exec_host_resource call wrapping ◌>>=◌
      set_exec_host_resource-Fulfils = record {
        at =
            after_show qc (has_value host k v) (λ c. c.exec_host host) (qc.show_exec_host host)
              (λ r.
                continue (change_error (wrapf "show exechost %q: %w" (host ∷ [])) (reply r))
                  (store_value qc host k v))
              (faithful.shows_exec_host host)
              (λ r s found. elim (Reply-cases r) [
                | inl (h, e) ↦ rw e (stored h s (found h e))
                | inr (x, e) ↦ rw e (failed_call qc (has_value host k v) s _)
              ]);
      }

    removed :
        (h : ExecHost Rest) (s : State)
        → (view s).exec_host host ≡ some h
        → Fulfilled qc (lacks_value host k) (view s) (remove_value qc host k h s)
    unfolding pure wrapping call
    removed h s found = elim (Option-cases (lookup k h.complex_values)) [
      | inl e ↦ rw e (already qc (lacks_value host k) s tt (h, found, e))
      | inr (v, e) ↦ rw e (
          let (good, bad) = faithful.modifies_exec_host host (without_value qc host k h) s in
          written qc (lacks_value host k) _ _
            (qc.modify_exec_host host (without_value qc host k h) s).0 good bad
            (λ _. (
              λ (h', at, eq). cc (
                  sym e
                  ∙ ap (λ x. lookup k x.complex_values) (some_injective (sym found ∙ at))
                  ∙ eq),
              (h, found, refl),
            ))
            (
              without_value qc host k h,
              put_self host (without_value qc host k h) (view s).exec_host,
              lookup-erase k k h.complex_values
                  ∙ ap (λ b. if b then none else lookup k h.complex_values) (text_eq_refl k),
            ))
    ]

    pub clear_exec_host_resource-Fulfils :
        Fulfils qc (lacks_value host k) (clear_exec_host_resource qc host k)
    unfolding clear_exec_host_resource call wrapping ◌>>=◌
    clear_exec_host_resource-Fulfils = record {
      at =
          after_show qc (lacks_value host k) (λ c. c.exec_host host) (qc.show_exec_host host)
            (λ r.
              continue (change_error (wrapf "show exechost %q: %w" (host ∷ [])) (reply r))
                (remove_value qc host k))
            (faithful.shows_exec_host host)
            (λ r s found. elim (Reply-cases r) [
              | inl (h, e) ↦ rw e (removed h s (found h e))
              | inr (x, e) ↦ rw e (failed_call qc (lacks_value host k) s _)
            ]);
    }
