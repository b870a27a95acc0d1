-- ===== src/Hooks/Keeps.antt =====
-- Actions that leave a view of the history unchanged: one rule for each way to build an action.
use qpu_resource.Prelude.{Bool, true, false, List, ◌∷◌, ◌≡◌, refl, ◌∙◌, Text, String, if◌then◌else◌}
use qpu_resource.Errors.{Error, Result, ok, err, Reply}
use qpu_resource.Hooks.{Event, History, Process, Level, logged}
use qpu_resource.Hooks.Exec.{
  Exec, pure, raise, lift, call, wrapping, attempt, continue, ◌>>=◌, handle, or_else, deferring,
  log, getenv, note,
}

-- The view `f` of the history is the same after the action, whatever it returns.
pub record Keeps {ℓ κ} {X : Type κ} {A : Type ℓ} (f : History → X) (m : Exec A) : Type (ℓ ⊔ κ) where
  pub at : (p : Process) → f (m p).1.history ≡ f p.history

module _ {κ} {X : Type κ} (f : History → X) where
  module _ {ℓ} {A : Type ℓ} where
    pub Keeps-pure : (a : A) → Keeps f (pure a)
    unfolding pure
    Keeps-pure a = record { at = λ p. refl }

    pub Keeps-raise : (e : Error) → Keeps f (raise {A = A} e)
    unfolding raise
    Keeps-raise e = record { at = λ p. refl }

    pub Keeps-lift : (r : Result A) → Keeps f (lift r)
    unfolding lift
    Keeps-lift r = record { at = λ p. refl }

    pub Keeps-call :
        (event : Reply A → Event) (ask : History → Reply A)
        → ((r : Reply A) (h : History) → f (event r ∷ h) ≡ f h)
        → Keeps f (call event ask)
    unfolding call
    Keeps-call event ask ignored = record { at = λ p. ignored (ask p.history) p.history }

    pub Keeps-wrapping : (g : Error → Error) (m : Exec A) → Keeps f m → Keeps f (wrapping g m)
    unfolding wrapping
    Keeps-wrapping g m k = record { at = k.at }

    pub Keeps-attempt : (m : Exec A) → Keeps f m → Keeps f (attempt m)
    unfolding attempt
    Keeps-attempt m k = record { at = k.at }

    pub Keeps-if : (b : Bool) (m n : Exec A) → Keeps f m → Keeps f n → Keeps f (if b then m else n)
    Keeps-if true m n km kn = km
    Keeps-if false m n km kn = kn

    handled :
        (r : Result A) (h : Error → Exec A) (q : Process)
        → ((e : Error) → Keeps f (h e))
        → f (handle r h q).1.history ≡ f q.history
    handled (ok a) h q k = refl
    handled (err e) h q k = (k e).at q

    pub Keeps-or_else :
        (m : Exec A) (h : Error → Exec A)
        → Keeps f m
        → ((e : Error) → Keeps f (h e))
        → Keeps f (or_else m h)
    unfolding or_else
    Keeps-or_else m h km kh = record { at = λ p. handled (m p).0 h (m p).1 kh ∙ km.at p }

    pub Keeps-deferring :
        (cleanup : Exec (Unit {0})) (m : Exec A)
        → Keeps f cleanup
        → Keeps f m
        → Keeps f (deferring cleanup m)
    unfolding deferring
    Keeps-deferring cleanup m kc km = record { at = λ p. kc.at (m p).1 ∙ km.at p }

  module _ {ℓ ℓ'} {A : Type ℓ} {B : Type ℓ'} where
    continued :
        (r : Result A) (g : A → Exec B) (q : Process)
        → ((a : A) → Keeps f (g a))
        → f (continue r g q).1.history ≡ f q.history
    continued (ok a) g q k = (k a).at q
    continued (err e) g q k = refl

    pub Keeps-bind :
        (m : Exec A) (g : A → Exec B) → Keeps f m → ((a : A) → Keeps f (g a)) → Keeps f (m >>= g)
    unfolding ◌>>=◌
    Keeps-bind m g km kg = record { at = λ p. continued (m p).0 g (m p).1 kg ∙ km.at p }

  pub Keeps-note : (e : Event) → ((h : History) → f (e ∷ h) ≡ f h) → Keeps f (note e)
  unfolding note
  Keeps-note e ignored = record { at = λ p. ignored p.history }

  pub Keeps-getenv : (k : Text) → Keeps f (getenv k)
  unfolding getenv
  Keeps-getenv k = record { at = λ p. refl }

  pub Keeps-log :
      (level : Level) (format : String) (args : List Text)
      → ((h : History) → f (logged level format args ∷ h) ≡ f h)
      → Keeps f (log level format args)
  unfolding log
  Keeps-log level format args ignored = record { at = λ p. ignored p.history }

pub ruleset keeps_rules = (
  Keeps-pure, Keeps-raise, Keeps-lift, Keeps-call, Keeps-wrapping, Keeps-attempt, Keeps-if,
  Keeps-or_else, Keeps-deferring, Keeps-bind, Keeps-note, Keeps-getenv, Keeps-log,
)
