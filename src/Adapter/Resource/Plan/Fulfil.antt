-- ===== src/Adapter/Resource/Plan/Fulfil.antt =====
-- How an action fulfils an obligation on the scheduler's configuration: the calls of
-- src/cmd/gridware-adapter/main.go read once, and write at most once.
use qpu_resource.Prelude.{◌≡◌, refl, sym, ◌⊎◌, inl, inr, Option, some}
use mathlib.Core.Path.{subst}
use qpu_resource.Errors.{Error, Failure, Result, ok, err, Reply, done, fails, reply}
use qpu_resource.Adapter.QConf.{Configuration, QConf, IsShow}
use qpu_resource.Adapter.Action.{Action, change_error}
use qpu_resource.Adapter.Resource.Plan.{Obligation, Holds, Changes}

abbrev pub IsOk {ℓ} : {A : Type ℓ} → Result A → Type 0
IsOk (ok a) = Unit
IsOk (err e) = ⊥

module _ (qc : QConf) where
  open qc use {State, Rest, view}

  module _ (ob : Obligation) where
    -- From a configuration to what an action leaves: the result and the state.
    pub record Fulfilled {A : Type 0} (c : Configuration Rest) (p : Result A × State) : Type 0 where
      pub changed : (view p.1 ≡ c) ⊎ ((¬ Holds qc ob c) × Changes qc ob c (view p.1))
      pub good : IsOk p.0 → Holds qc ob (view p.1)

    pub record Fulfils {A : Type 0} (m : Action State A) : Type 0 where
      pub at : (s : State) → Fulfilled (view s) (m s)

    pub failed_call : {A : Type 0} (s : State) (e : Error) → Fulfilled {A = A} (view s) (err e, s)
    failed_call s e = record { changed = inl refl; good = λ h. elim h [ ] }

    pub already :
        {A : Type 0} (s : State) (a : A) → Holds qc ob (view s) → Fulfilled (view s) (ok a, s)
    already s a h = record { changed = inl refl; good = λ _. h }

    -- After a call that writes.
    pub written :
        {c : Configuration Rest} {s : State} (d : Configuration Rest) (f : Error → Error)
        (r : Reply (Unit {0}))
        → (r ≡ done tt → view s ≡ d)
        → ((x : Failure) → r ≡ fails x → view s ≡ c)
        → (r ≡ done tt → (¬ Holds qc ob c) × Changes qc ob c d)
        → Holds qc ob d
        → Fulfilled c (change_error f (reply r), s)
    written {c} d f (done u) good bad new holds = record {
      changed = inr ((new refl).0, subst (Changes qc ob c) (sym (good refl)) (new refl).1);
      good = λ _. subst (Holds qc ob) (sym (good refl)) holds;
    }
    written d f (fails x) good bad new holds = record {
      changed = inl (bad x refl);
      good = λ h. elim h [ ];
    }

    -- After a call that reads.
    pub after_show :
        {A B : Type 0} (find : Configuration Rest → Option A) (op : State → Reply A × State)
        (m : Reply A → Action State B)
        → IsShow view find op
        → ((r : Reply A) (s : State)
            → ((a : A) → r ≡ done a → find (view s) ≡ some a)
            → Fulfilled (view s) (m r s))
        → (s : State) → Fulfilled (view s) (m (op s).0 (op s).1)
    after_show find op m law rest s =
        let (same, found) = law s in
        subst (λ c. Fulfilled c (m (op s).0 (op s).1)) same
          (rest (op s).0 (op s).1 (λ a h. subst (λ c. find c ≡ some a) (sym same) (found a h)))
