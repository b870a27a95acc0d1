-- ===== src/Adapter/Action.antt =====
-- Actions on the scheduler, as src/cmd/gridware-adapter/main.go takes them: they change the client's
-- state and return a value or an error.
use qpu_resource.Prelude.{Bool, if◌then◌else◌, ◌≡◌, refl}
use qpu_resource.Errors.{Error, Result, ok, err, Reply, done, fails, reply}

abbrev pub Action {ℓ} : Type 0 → Type ℓ → Type ℓ
Action S A = S → Result A × S

abbrev pub change_error {ℓ} : {A : Type ℓ} → (Error → Error) → Result A → Result A
change_error f (ok a) = ok a
change_error f (err e) = err (f e)

module _ {S A : Type 0} where
  unfoldable pub pure : A → Action S A
  pure a s = (ok a, s)

  unfoldable pub raise : Error → Action S A
  raise e s = (err e, s)

  unfoldable pub lift : Result A → Action S A
  lift r s = (r, s)

  -- One call of the client.
  unfoldable pub call : (S → Reply A × S) → Action S A
  call op s = let (r, s') = op s in (reply r, s')

  -- `fmt.Errorf("…: %w", err)` where an action fails.
  unfoldable pub wrapping : (Error → Error) → Action S A → Action S A
  wrapping f m s = let (r, s') = m s in (change_error f r, s')

  -- The result of an action as a value: an error does not stop what follows.
  unfoldable pub attempt : Action S A → Action S (Result A)
  attempt m s = let (r, s') = m s in (ok r, s')

module _ {S A B : Type 0} where
  abbrev pub continue : Result A → (A → Action S B) → Action S B
  continue (ok a) f s = f a s
  continue (err e) f s = (err e, s)

  infixl 5 ◌>>=◌ ◌>>◌
  unfoldable pub ◌>>=◌ : Action S A → (A → Action S B) → Action S B
  unfolding pure raise lift call wrapping attempt
  ◌>>=◌ m f s = let (r, s') = m s in continue r f s'

  abbrev pub ◌>>◌ : Action S A → Action S B → Action S B
  m >> n = m >>= λ _. n

-- `if b { … }`.
abbrev pub when : {S : Type 0} → Bool → Action S (Unit {0}) → Action S (Unit {0})
when b m = if b then m else pure tt

continue_ok :
    {S A B : Type 0} (r : Result A) (f : A → Action S B) (s : S) {b : B}
    → (continue r f s).0 ≡ ok b
    → (a : A) × (r ≡ ok a) × (continue r f s ≡ f a s)
continue_ok (ok a) f s h = (a, refl, refl)
continue_ok (err e) f s h = absurd (cc h)

-- A block that succeeds has passed its first step.
pub bind_ok :
    {S A B : Type 0} (m : Action S A) (f : A → Action S B) (s : S) {b : B}
    → ((m >>= f) s).0 ≡ ok b
    → (a : A) × ((m s).0 ≡ ok a) × ((m >>= f) s ≡ f a (m s).1)
unfolding ◌>>=◌
bind_ok m f s h = continue_ok (m s).0 f (m s).1 h

answered :
    {A : Type 0} (g : Error → Error) (r : Reply A) {a : A}
    → change_error g (reply r) ≡ ok a
    → r ≡ done a
answered g (done a) h = cc h
answered g (fails x) h = absurd (cc h)

pub call_ok :
    {S A : Type 0} (g : Error → Error) (op : S → Reply A × S) (s : S) {a : A}
    → (wrapping g (call op) s).0 ≡ ok a
    → (op s).0 ≡ done a
unfolding wrapping call
call_ok g op s h = answered g (op s).0 h
