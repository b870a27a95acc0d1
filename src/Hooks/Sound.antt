-- ===== src/Hooks/Sound.antt =====
-- Actions of a hook that fail with known errors only: one rule for each way to build an action.
use qpu_resource.Prelude.{Bool, true, false, List, Option, none, some, Text, String, if◌then◌else◌}
use qpu_resource.Errors.{Error, Result, ok, err, Reply}
use qpu_resource.Hooks.{Event, History, Process, Level}
use qpu_resource.Hooks.Codes.{IsKnown, KnownIn, KnownIn-reply}
use qpu_resource.Hooks.Exec.{
  Exec, pure, raise, lift, call, wrapping, attempt, change_error, continue, ◌>>=◌, handle, or_else,
  deferring, log, getenv, note,
}

abbrev pub KnownWriter : Option Error → Type 0
KnownWriter none = Unit
KnownWriter (some e) = IsKnown false e

-- From a process whose writer has kept no error but one without a code, the action gives a value or a
-- known error, and its writer has kept no other. Only where errors are
-- `coded` may the error have a code.
pub record Sound {ℓ} {A : Type ℓ} (coded : Bool) (m : Exec A) : Type 0 where
  pub at :
      (p : Process)
      → KnownWriter p.writer_error
      → KnownIn coded (m p).0 × KnownWriter (m p).1.writer_error

module _ {c : Bool} where
  module _ {ℓ} {A : Type ℓ} where
    pub Sound-pure : (a : A) → Sound c (pure a)
    unfolding pure
    Sound-pure a = record { at = λ p w. (tt, w) }

    pub Sound-raise : (e : Error) → IsKnown c e → Sound c (raise {A = A} e)
    unfolding raise
    Sound-raise e k = record { at = λ p w. (k, w) }

    pub Sound-lift : (r : Result A) → KnownIn c r → Sound c (lift r)
    unfolding lift
    Sound-lift r k = record { at = λ p w. (k, w) }

    pub Sound-call : (event : Reply A → Event) (ask : History → Reply A) → Sound c (call event ask)
    unfolding call
    Sound-call event ask = record { at = λ p w. (KnownIn-reply c (ask p.history), w) }

    changed :
        (g : Error → Error) (r : Result A)
        → ((e : Error) → IsKnown c e → IsKnown c (g e))
        → KnownIn c r
        → KnownIn c (change_error g r)
    changed g (ok a) k h = tt
    changed g (err e) k h = k e h

    pub Sound-wrapping :
        (g : Error → Error) (m : Exec A)
        → ((e : Error) → IsKnown c e → IsKnown c (g e))
        → Sound c m
        → Sound c (wrapping g m)
    unfolding wrapping
    Sound-wrapping g m k s = record {
      at = λ p w. let (known, after) = s.at p w in (changed g (m p).0 k known, after);
    }

    pub Sound-if : (b : Bool) (m n : Exec A) → Sound c m → Sound c n → Sound c (if b then m else n)
    Sound-if true m n sm sn = sm
    Sound-if false m n sm sn = sn

    handled :
        (r : Result A) (h : Error → Exec A) (q : Process)
        → KnownIn c r
        → KnownWriter q.writer_error
        → ((e : Error) → IsKnown c e → Sound c (h e))
        → KnownIn c (handle r h q).0 × KnownWriter (handle r h q).1.writer_error
    handled (ok a) h q k w s = (tt, w)
    handled (err e) h q k w s = (s e k).at q w

    pub Sound-or_else :
        (m : Exec A) (h : Error → Exec A)
        → Sound c m
        → ((e : Error) → IsKnown c e → Sound c (h e))
        → Sound c (or_else m h)
    unfolding or_else
    Sound-or_else m h sm sh = record {
      at = λ p w. let (known, after) = sm.at p w in handled (m p).0 h (m p).1 known after sh;
    }

    pub Sound-deferring :
        (cleanup : Exec (Unit {0})) (m : Exec A)
        → Sound c cleanup
        → Sound c m
        → Sound c (deferring cleanup m)
    unfolding deferring
    Sound-deferring cleanup m sc sm = record {
      at = λ p w. let (known, after) = sm.at p w in (known, (sc.at (m p).1 after).1);
    }

  module _ {ℓ ℓ'} {A : Type ℓ} {B : Type ℓ'} where
    continued :
        (r : Result A) (g : A → Exec B) (q : Process)
        → KnownIn c r
        → KnownWriter q.writer_error
        → ((a : A) → Sound c (g a))
        → KnownIn c (continue r g q).0 × KnownWriter (continue r g q).1.writer_error
    continued (ok a) g q k w s = (s a).at q w
    continued (err e) g q k w s = (k, w)

    pub Sound-bind :
        (m : Exec A) (g : A → Exec B) → Sound c m → ((a : A) → Sound c (g a)) → Sound c (m >>= g)
    unfolding ◌>>=◌
    Sound-bind m g sm sg = record {
      at = λ p w. let (known, after) = sm.at p w in continued (m p).0 g (m p).1 known after sg;
    }

    -- What follows an attempt may rely on its error.
    pub Sound-attempt :
        (m : Exec A) (g : Result A → Exec B)
        → Sound c m
        → ((r : Result A) → KnownIn c r → Sound c (g r))
        → Sound c (attempt m >>= g)
    unfolding ◌>>=◌ attempt
    Sound-attempt m g sm sg = record {
      at = λ p w. let (known, after) = sm.at p w in (sg (m p).0 known).at (m p).1 after;
    }

  pub Sound-note : (e : Event) → Sound c (note e)
  unfolding note
  Sound-note e = record { at = λ p w. (tt, w) }

  pub Sound-getenv : (k : Text) → Sound c (getenv k)
  unfolding getenv
  Sound-getenv k = record { at = λ p w. (tt, w) }

  pub Sound-log :
      (level : Level) (format : String) (args : List Text) → Sound c (log level format args)
  unfolding log
  Sound-log level format args = record { at = λ p w. (tt, w) }

pub ruleset sound_rules = (
  Sound-pure, Sound-raise, Sound-lift, Sound-call, Sound-wrapping, Sound-if, Sound-or_else,
  Sound-deferring, Sound-bind, Sound-attempt, Sound-note, Sound-getenv, Sound-log,
)
