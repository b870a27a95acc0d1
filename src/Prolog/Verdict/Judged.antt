-- ===== src/Prolog/Verdict/Judged.antt =====
-- Actions of the prolog, judged by the error that they fail with and by what the history then shows.
use qpu_resource.Prelude.{Bool, ◌∷◌, ◌≡◌, refl, sym}
use mathlib.Core.Path.{subst}
use qpu_resource.Errors.{Error, failed, Result, ok, err, Reply, done, fails, reply}
use qpu_resource.Hooks.{Event, History, Process}
use qpu_resource.Hooks.Codes.{IsKnown, KnownIn}
use qpu_resource.Hooks.Sound.{KnownWriter, Sound}
use qpu_resource.Hooks.Keeps.{Keeps}
use qpu_resource.Hooks.Exec.{
  Exec, pure, raise, call, attempt, continue, ◌>>=◌, handle, or_else, deferring, wrapping,
  change_error,
}
use qpu_resource.Prolog.Verdict.{Flags, flags}

abbrev pub ByResult {ℓ} :
    {A : Type ℓ} → (A → Flags → Type 0) → (Error → Flags → Type 0) → Result A → Flags → Type 0
ByResult good bad (ok a) v = good a v
ByResult good bad (err e) v = bad e v

pub record Judged {ℓ} {A : Type ℓ} (before : Flags → Type 0) (m : Exec A)
    (good : A → Flags → Type 0) (bad : Error → Flags → Type 0) : Type 0 where
  pub at :
      (p : Process)
      → KnownWriter p.writer_error
      → before (flags p.history)
      → ByResult good bad (m p).0 (flags (m p).1.history) × KnownWriter (m p).1.writer_error

module _ {ℓ} {A : Type ℓ} (before : Flags → Type 0) where
  pub Judged-pure :
      (a : A) (bad : Error → Flags → Type 0) → Judged before (pure a) (λ _. before) bad
  unfolding pure
  Judged-pure a bad = record { at = λ p w h. (h, w) }

  pub Judged-raise :
      (e : Error) (good : A → Flags → Type 0)
      → Judged before (raise e) good (λ x v. (x ≡ e) × before v)
  unfolding raise
  Judged-raise e good = record { at = λ p w h. ((refl, h), w) }

  module _ (c : Bool) (bad : Error → Flags → Type 0) where
    kept_before :
        (r : Result A) (v w : Flags)
        → v ≡ w
        → KnownIn c r
        → before w
        → ((e : Error) (u : Flags) → IsKnown c e → before u → bad e u)
        → ByResult (λ _. before) bad r v
    kept_before (ok a) v w e k h f = subst before (sym e) h
    kept_before (err x) v w e k h f = f x v k (subst before (sym e) h)

    -- An action that does not change what is shown.
    pub Judged-leaf :
        (m : Exec A)
        → Sound c m
        → Keeps flags m
        → ((e : Error) (v : Flags) → IsKnown c e → before v → bad e v)
        → Judged before m (λ _. before) bad
    Judged-leaf m s k f = record {
      at = λ p w h.
          let (known, after) = s.at p w in
          (kept_before (m p).0 (flags (m p).1.history) (flags p.history) (k.at p) known h f, after);
    }

module _ {ℓ} {A : Type ℓ} (good : A → Flags → Type 0) (bad : Error → Flags → Type 0) where
  answered :
      (event : Reply A → Event) (r : Reply A) (q : Process)
      → ((a : A) → good a (flags (event (done a) ∷ q.history)))
      → ((x : _) → bad (failed x) (flags (event (fails x) ∷ q.history)))
      → ByResult good bad (reply r) (flags (event r ∷ q.history))
  answered event (done a) q g b = g a
  answered event (fails x) q g b = b x

  pub Judged-call :
      (before : Flags → Type 0) (event : Reply A → Event) (ask : History → Reply A)
      → ((a : A) (h : History) → before (flags h) → good a (flags (event (done a) ∷ h)))
      → ((x : _) (h : History) → before (flags h) → bad (failed x) (flags (event (fails x) ∷ h)))
      → Judged before (call event ask) good bad
  unfolding call
  Judged-call before event ask g b = record {
    at = λ p w h.
        (answered event (ask p.history) p (λ a. g a p.history h) (λ x. b x p.history h), w);
  }

  unmoved : (r : Result A) (v w : Flags) → w ≡ v → ByResult good bad r v → ByResult good bad r w
  unmoved r v w e h = subst (ByResult good bad r) (sym e) h

  pub Judged-deferring :
      (before : Flags → Type 0) (c : Bool) (cleanup : Exec (Unit {0})) (m : Exec A)
      → Sound c cleanup
      → Keeps flags cleanup
      → Judged before m good bad
      → Judged before (deferring cleanup m) good bad
  unfolding deferring
  Judged-deferring before c cleanup m s k j = record {
    at = λ p w h.
        let (judged, after) = j.at p w h in
        (
          unmoved (m p).0 (flags (m p).1.history) (flags (cleanup (m p).1).1.history) (k.at (m p).1)
              judged,
          (s.at (m p).1 after).1,
        );
  }

  module _ (bad' : Error → Flags → Type 0) (h : Error → Exec A) where
    recovered :
        (r : Result A) (q : Process)
        → ((e : Error) → Judged (bad' e) (h e) good bad)
        → KnownWriter q.writer_error
        → ByResult good bad' r (flags q.history)
        → ByResult good bad (handle r h q).0 (flags (handle r h q).1.history)
          × KnownWriter (handle r h q).1.writer_error
    recovered (ok a) q jh w o = (o, w)
    recovered (err e) q jh w o = (jh e).at q w o

    pub Judged-or_else :
        (before : Flags → Type 0) (m : Exec A)
        → Judged before m good bad'
        → ((e : Error) → Judged (bad' e) (h e) good bad)
        → Judged before (or_else m h) good bad
    unfolding or_else
    Judged-or_else before m jm jh = record {
      at = λ p w b. let (judged, after) = jm.at p w b in recovered (m p).0 (m p).1 jh after judged;
    }

  worse :
      (bad' : Error → Flags → Type 0) (r : Result A) (v : Flags)
      → ((e : Error) (v : Flags) → bad e v → bad' e v)
      → ByResult good bad r v
      → ByResult good bad' r v
  worse bad' (ok a) v f h = h
  worse bad' (err e) v f h = f e v h

  pub Judged-worse :
      (before : Flags → Type 0) (m : Exec A) (bad' : Error → Flags → Type 0)
      → ((e : Error) (v : Flags) → bad e v → bad' e v)
      → Judged before m good bad
      → Judged before m good bad'
  Judged-worse before m bad' f j = record {
    at = λ p w h.
        let (judged, after) = j.at p w h in
        (worse bad' (m p).0 (flags (m p).1.history) f judged, after);
  }

module _ {ℓ} {A : Type ℓ} (good good' : A → Flags → Type 0) (bad : Error → Flags → Type 0) where
  weaker :
      (r : Result A) (v : Flags)
      → ((a : A) (v : Flags) → good a v → good' a v)
      → ByResult good bad r v
      → ByResult good' bad r v
  weaker (ok a) v f h = f a v h
  weaker (err e) v f h = h

  pub Judged-better :
      (before : Flags → Type 0) (m : Exec A)
      → ((a : A) (v : Flags) → good a v → good' a v)
      → Judged before m good bad
      → Judged before m good' bad
  Judged-better before m f j = record {
    at = λ p w h.
        let (judged, after) = j.at p w h in
        (weaker (m p).0 (flags (m p).1.history) f judged, after);
  }

module _ {ℓ κ} {A : Type ℓ} {B : Type κ} (mid : A → Flags → Type 0) (good : B → Flags → Type 0)
    (bad : Error → Flags → Type 0) where
  continued :
      (r : Result A) (g : A → Exec B) (q : Process)
      → ((a : A) → Judged (mid a) (g a) good bad)
      → KnownWriter q.writer_error
      → ByResult mid bad r (flags q.history)
      → ByResult good bad (continue r g q).0 (flags (continue r g q).1.history)
        × KnownWriter (continue r g q).1.writer_error
  continued (ok a) g q j w h = (j a).at q w h
  continued (err e) g q j w h = (h, w)

  pub Judged-bind :
      (before : Flags → Type 0) (m : Exec A) (g : A → Exec B)
      → Judged before m mid bad
      → ((a : A) → Judged (mid a) (g a) good bad)
      → Judged before (m >>= g) good bad
  unfolding ◌>>=◌
  Judged-bind before m g jm jg = record {
    at = λ p w h. let (judged, after) = jm.at p w h in continued (m p).0 g (m p).1 jg after judged;
  }

module _ {ℓ} {A : Type ℓ} (good : A → Flags → Type 0) (bad bad' : Error → Flags → Type 0) where
  changed :
      (g : Error → Error) (r : Result A) (v : Flags)
      → ((e : Error) (v : Flags) → bad e v → bad' (g e) v)
      → ByResult good bad r v
      → ByResult good bad' (change_error g r) v
  changed g (ok a) v f h = h
  changed g (err e) v f h = f e v h

  pub Judged-wrapping :
      (before : Flags → Type 0) (g : Error → Error) (m : Exec A)
      → ((e : Error) (v : Flags) → bad e v → bad' (g e) v)
      → Judged before m good bad
      → Judged before (wrapping g m) good bad'
  unfolding wrapping
  Judged-wrapping before g m f j = record {
    at = λ p w h.
        let (judged, after) = j.at p w h in
        (changed g (m p).0 (flags (m p).1.history) f judged, after);
  }

-- What follows an attempt, by its result.
pub Judged-then {ℓ κ} :
    {A : Type ℓ} {B : Type κ} (mid : A → Flags → Type 0) (failing : Error → Flags → Type 0)
    (good : B → Flags → Type 0) (bad : Error → Flags → Type 0) (before : Flags → Type 0)
    (m : Exec A) (g : Result A → Exec B)
    → Judged before m mid failing
    → ((r : Result A) → Judged (ByResult mid failing r) (g r) good bad)
    → Judged before (attempt m >>= g) good bad
unfolding ◌>>=◌ attempt
Judged-then mid failing good bad before m g jm jg = record {
  at = λ p w h. let (judged, after) = jm.at p w h in (jg (m p).0).at (m p).1 after judged;
}

pub Judged-from {ℓ} :
    {A : Type ℓ} (before before' : Flags → Type 0) (m : Exec A) (good : A → Flags → Type 0)
    (bad : Error → Flags → Type 0)
    → ((v : Flags) → before' v → before v)
    → Judged before m good bad
    → Judged before' m good bad
Judged-from before before' m good bad f j = record { at = λ p w h. j.at p w (f _ h) }
