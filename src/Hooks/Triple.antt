-- ===== src/Hooks/Triple.antt =====
-- What an action of a hook makes of a view of the history, on success and on failure.
use qpu_resource.Prelude.{Bool, true, false, ◌∷◌, ◌≡◌, refl, sym, if◌then◌else◌}
use mathlib.Core.Path.{subst}
use qpu_resource.Errors.{Error, Result, ok, err, Reply, done, fails, reply}
use qpu_resource.Hooks.{Event, History, Process}
use qpu_resource.Hooks.Exec.{
  Exec, pure, raise, call, change_error, wrapping, attempt, continue, ◌>>=◌, handle, or_else,
  deferring,
}
use qpu_resource.Hooks.Keeps.{Keeps}

module _ {ν} {V : Type ν} (view : History → V) where
  -- The view after the action, by its result.
  abbrev pub Outcome {ℓ} :
      {A : Type ℓ} → (A → V → Type 0) → (V → Type 0) → Result A × Process → Type 0
  Outcome good bad (ok a, q) = good a (view q.history)
  Outcome good bad (err e, q) = bad (view q.history)

  -- Where `before` holds of the view, the action gives `good` with a value and `bad` with an error.
  pub record Triple {ℓ} {A : Type ℓ} (before : V → Type 0) (m : Exec A) (good : A → V → Type 0)
      (bad : V → Type 0) : Type ν where
    pub at : (p : Process) → before (view p.history) → Outcome good bad (m p)

  module _ {ℓ} {A : Type ℓ} (before : V → Type 0) where
    pub Triple-pure : (a : A) (bad : V → Type 0) → Triple before (pure a) (λ _. before) bad
    unfolding pure
    Triple-pure a bad = record { at = λ p h. h }

    pub Triple-raise : (e : Error) (good : A → V → Type 0) → Triple before (raise e) good before
    unfolding raise
    Triple-raise e good = record { at = λ p h. h }

    kept_before :
        (w : V) (r : Result A) (q : Process)
        → view q.history ≡ w
        → before w
        → Outcome (λ _. before) before (r, q)
    kept_before w (ok a) q e h = subst before (sym e) h
    kept_before w (err x) q e h = subst before (sym e) h

    pub Triple-Keeps : (m : Exec A) → Keeps view m → Triple before m (λ _. before) before
    Triple-Keeps m k = record {
      at = λ p h. kept_before (view p.history) (m p).0 (m p).1 (k.at p) h;
    }

    pub Triple-if :
        (b : Bool) (m n : Exec A) (good : A → V → Type 0) (bad : V → Type 0)
        → Triple before m good bad
        → Triple before n good bad
        → Triple before (if b then m else n) good bad
    Triple-if true m n good bad t u = t
    Triple-if false m n good bad t u = u

  module _ {ℓ} {A : Type ℓ} (good : A → V → Type 0) (bad : V → Type 0) where
    unmoved :
        (r : Result A) (q q' : Process)
        → view q'.history ≡ view q.history
        → Outcome good bad (r, q)
        → Outcome good bad (r, q')
    unmoved (ok a) q q' e h = subst (good a) (sym e) h
    unmoved (err x) q q' e h = subst bad (sym e) h

    pub Triple-deferring :
        (before : V → Type 0) (cleanup : Exec (Unit {0})) (m : Exec A)
        → Keeps view cleanup
        → Triple before m good bad
        → Triple before (deferring cleanup m) good bad
    unfolding deferring
    Triple-deferring before cleanup m k t = record {
      at = λ p h. unmoved (m p).0 (m p).1 (cleanup (m p).1).1 (k.at (m p).1) (t.at p h);
    }

    wrapped :
        (g : Error → Error) (r : Result A) (q : Process)
        → Outcome good bad (r, q)
        → Outcome good bad (change_error g r, q)
    wrapped g (ok a) q h = h
    wrapped g (err e) q h = h

    pub Triple-wrapping :
        (before : V → Type 0) (g : Error → Error) (m : Exec A)
        → Triple before m good bad
        → Triple before (wrapping g m) good bad
    unfolding wrapping
    Triple-wrapping before g m t = record { at = λ p h. wrapped g (m p).0 (m p).1 (t.at p h) }

    weaker :
        (good' : A → V → Type 0) (r : Result A) (q : Process)
        → ((a : A) (v : V) → good a v → good' a v)
        → Outcome good bad (r, q)
        → Outcome good' bad (r, q)
    weaker good' (ok a) q i h = i a (view q.history) h
    weaker good' (err e) q i h = h

    pub Triple-weaken :
        (before : V → Type 0) (m : Exec A) (good' : A → V → Type 0)
        → ((a : A) (v : V) → good a v → good' a v)
        → Triple before m good bad
        → Triple before m good' bad
    Triple-weaken before m good' i t = record {
      at = λ p h. weaker good' (m p).0 (m p).1 i (t.at p h);
    }

    module _ (h : Error → Exec A) (bad' : V → Type 0) where
      recovered :
          (r : Result A) (q : Process)
          → ((e : Error) → Triple bad (h e) good bad')
          → Outcome good bad (r, q)
          → Outcome good bad' (handle r h q)
      recovered (ok a) q th o = o
      recovered (err e) q th o = (th e).at q o

      pub Triple-or_else :
          (before : V → Type 0) (m : Exec A)
          → Triple before m good bad
          → ((e : Error) → Triple bad (h e) good bad')
          → Triple before (or_else m h) good bad'
      unfolding or_else
      Triple-or_else before m tm th = record {
        at = λ p b. recovered (m p).0 (m p).1 th (tm.at p b);
      }

  module _ {ℓ κ} {A : Type ℓ} {B : Type κ} (mid : A → V → Type 0) (good : B → V → Type 0)
      (bad : V → Type 0) where
    continued :
        (r : Result A) (g : A → Exec B) (q : Process)
        → ((a : A) → Triple (mid a) (g a) good bad)
        → Outcome mid bad (r, q)
        → Outcome good bad (continue r g q)
    continued (ok a) g q t h = (t a).at q h
    continued (err e) g q t h = h

    pub Triple-bind :
        (before : V → Type 0) (m : Exec A) (g : A → Exec B)
        → Triple before m mid bad
        → ((a : A) → Triple (mid a) (g a) good bad)
        → Triple before (m >>= g) good bad
    unfolding ◌>>=◌
    Triple-bind before m g tm tg = record { at = λ p h. continued (m p).0 g (m p).1 tg (tm.at p h) }

  -- A call: what its event makes of the view, by the reply.
  module _ {ℓ} {A : Type ℓ} (good : A → V → Type 0) (bad : V → Type 0) where
    answered :
        (event : Reply A → Event) (r : Reply A) (q : Process)
        → ((a : A) → good a (view (event (done a) ∷ q.history)))
        → ((x : _) → bad (view (event (fails x) ∷ q.history)))
        → Outcome good bad (reply r, record q { history = event r ∷ q.history })
    answered event (done a) q g b = g a
    answered event (fails x) q g b = b x

    pub Triple-call :
        (before : V → Type 0) (event : Reply A → Event) (ask : History → Reply A)
        → ((a : A) (h : History) → before (view h) → good a (view (event (done a) ∷ h)))
        → ((x : _) (h : History) → before (view h) → bad (view (event (fails x) ∷ h)))
        → Triple before (call event ask) good bad
    unfolding call
    Triple-call before event ask g b = record {
      at = λ p h. answered event (ask p.history) p (λ a. g a p.history h) (λ x. b x p.history h);
    }

  module _ {ℓ} {A : Type ℓ} (after : V → Type 0) where
    either_way :
        (r : Result A) (q : Process) → Outcome (λ _. after) after (r, q) → after (view q.history)
    either_way (ok a) q h = h
    either_way (err e) q h = h

    pub Triple-attempt :
        (before bad : V → Type 0) (m : Exec A)
        → Triple before m (λ _. after) after
        → Triple before (attempt m) (λ _. after) bad
    unfolding attempt
    Triple-attempt before bad m t = record { at = λ p h. either_way (m p).0 (m p).1 (t.at p h) }

  module _ {ℓ} {A : Type ℓ} (good : A → V → Type 0) (bad : V → Type 0) where
    -- A fact that does not depend on the view.
    pub Triple-fact :
        {F : Type 0} (before : V → Type 0) (m : Exec A)
        → (F → Triple before m good bad)
        → Triple (λ v. before v × F) m good bad
    Triple-fact before m t = record { at = λ p (h, fact). (t fact).at p h }

    worse :
        (bad' : V → Type 0) (r : Result A) (q : Process)
        → ((v : V) → bad v → bad' v)
        → Outcome good bad (r, q)
        → Outcome good bad' (r, q)
    worse bad' (ok a) q i h = h
    worse bad' (err e) q i h = i (view q.history) h

    pub Triple-worse :
        (before : V → Type 0) (m : Exec A) (bad' : V → Type 0)
        → ((v : V) → bad v → bad' v)
        → Triple before m good bad
        → Triple before m good bad'
    Triple-worse before m bad' i t = record { at = λ p h. worse bad' (m p).0 (m p).1 i (t.at p h) }

  -- What holds after an attempt, by its result.
  abbrev pub ByResult {ℓ} : {A : Type ℓ} → (A → V → Type 0) → (V → Type 0) → Result A → V → Type 0
  ByResult good bad (ok a) v = good a v
  ByResult good bad (err e) v = bad v

  module _ {ℓ} {A : Type ℓ} (good : A → V → Type 0) (bad : V → Type 0) where
    by_result :
        (r : Result A) (q : Process)
        → Outcome good bad (r, q)
        → ByResult good bad r (view q.history)
    by_result (ok a) q h = h
    by_result (err e) q h = h

    pub Triple-attempt_result :
        (before never : V → Type 0) (m : Exec A)
        → Triple before m good bad
        → Triple before (attempt m) (ByResult good bad) never
    unfolding attempt
    Triple-attempt_result before never m t = record {
      at = λ p h. by_result (m p).0 (m p).1 (t.at p h);
    }

  module _ {ℓ κ} {A : Type ℓ} {B : Type κ} (good : B → V → Type 0) (bad : V → Type 0) where
    -- After a first action whose result is known.
    pub after_ok :
        (m : Exec A) (g : A → Exec B) (p : Process) (a : A)
        → (m p).0 ≡ ok a
        → Outcome good bad (g a (m p).1)
        → Outcome good bad ((m >>= g) p)
    unfolding ◌>>=◌
    after_ok m g p a e h = subst (λ r. Outcome good bad (continue r g (m p).1)) (sym e) h

  -- A call whose reply is known to be the system's.
  module _ {ℓ} {A : Type ℓ} (good : A → V → Type 0) (bad : V → Type 0) where
    replied :
        (event : Reply A → Event) (ask : History → Reply A) (r : Reply A) (q : Process)
        → ask q.history ≡ r
        → ((a : A) → ask q.history ≡ done a → good a (view (event (done a) ∷ q.history)))
        → ((x : _) → bad (view (event (fails x) ∷ q.history)))
        → Outcome good bad (reply r, record q { history = event r ∷ q.history })
    replied event ask (done a) q e g b = g a e
    replied event ask (fails x) q e g b = b x

    pub Triple-reply :
        (before : V → Type 0) (event : Reply A → Event) (ask : History → Reply A)
        → ((a : A) (h : History)
            → ask h ≡ done a
            → before (view h)
            → good a (view (event (done a) ∷ h)))
        → ((x : _) (h : History) → before (view h) → bad (view (event (fails x) ∷ h)))
        → Triple before (call event ask) good bad
    unfolding call
    Triple-reply before event ask g b = record {
      at = λ p h.
          replied event ask (ask p.history) p refl (λ a e. g a p.history e h)
            (λ x. b x p.history h);
    }

    -- What holds after an action still holds after a cleanup that keeps it.
    cleaned :
        (cleanup : Exec (Unit {0})) (r : Result A) (q : Process)
        → ((a : A) (p : Process) → good a (view p.history) → good a (view (cleanup p).1.history))
        → ((p : Process) → bad (view p.history) → bad (view (cleanup p).1.history))
        → Outcome good bad (r, q)
        → Outcome good bad (r, (cleanup q).1)
    cleaned cleanup (ok a) q kg kb h = kg a q h
    cleaned cleanup (err e) q kg kb h = kb q h

    pub Triple-deferring_kept :
        (before : V → Type 0) (cleanup : Exec (Unit {0})) (m : Exec A)
        → ((a : A) (p : Process) → good a (view p.history) → good a (view (cleanup p).1.history))
        → ((p : Process) → bad (view p.history) → bad (view (cleanup p).1.history))
        → Triple before m good bad
        → Triple before (deferring cleanup m) good bad
    unfolding deferring
    Triple-deferring_kept before cleanup m kg kb t = record {
      at = λ p h. cleaned cleanup (m p).0 (m p).1 kg kb (t.at p h);
    }
