-- ===== src/Hooks/Exec.antt =====
-- Actions of a hook: they change the process and return a value or an error.
use qpu_resource.Prelude.{List, ◌∷◌, Text, String}
use qpu_resource.Dict.{value_of}
use qpu_resource.Errors.{Error, Result, ok, err, Reply, reply}
use qpu_resource.Hooks.{Event, logged, Level, History, Process}

abbrev pub Exec {ℓ} : Type ℓ → Type ℓ
Exec A = Process → Result A × Process

module _ {ℓ} {A : Type ℓ} where
  unfoldable pub pure : A → Exec A
  pure a p = (ok a, p)

  unfoldable pub raise : Error → Exec A
  raise e p = (err e, p)

  unfoldable pub lift : Result A → Exec A
  lift r p = (r, p)

  -- One call: its event is recorded with the reply.
  unfoldable pub call : (Reply A → Event) → (History → Reply A) → Exec A
  call event ask p = let r = ask p.history in (reply r, record p { history = event r ∷ p.history })

  -- `fmt.Errorf("…: %w", err)` where an action fails.
  abbrev pub change_error : (Error → Error) → Result A → Result A
  change_error f (ok a) = ok a
  change_error f (err e) = err (f e)

  unfoldable pub wrapping : (Error → Error) → Exec A → Exec A
  wrapping f m p = let (r, q) = m p in (change_error f r, q)

  -- The result of an action as a value: an error does not stop what follows.
  unfoldable pub attempt : Exec A → Exec (Result A)
  attempt m p = let (r, q) = m p in (ok r, q)

module _ {ℓ κ} {A : Type ℓ} {B : Type κ} where
  abbrev pub continue : Result A → (A → Exec B) → Exec B
  continue (ok a) f p = f a p
  continue (err e) f p = (err e, p)

  infixl 5 ◌>>=◌ ◌>>◌
  unfoldable pub ◌>>=◌ : Exec A → (A → Exec B) → Exec B
  unfolding pure raise lift call wrapping attempt
  ◌>>=◌ m f p = let (r, q) = m p in continue r f q

  abbrev pub ◌>>◌ : Exec A → Exec B → Exec B
  m >> n = m >>= λ _. n

-- Where an action fails, the handler takes the error.
module _ {ℓ} {A : Type ℓ} where
  abbrev pub handle : Result A → (Error → Exec A) → Exec A
  handle (ok a) h p = (ok a, p)
  handle (err e) h p = h e p

  unfoldable pub or_else : Exec A → (Error → Exec A) → Exec A
  or_else m h p = let (r, q) = m p in handle r h q

  -- `defer`: the second action runs whatever the first returns, and its result is dropped.
  unfoldable pub deferring : Exec (Unit {0}) → Exec A → Exec A
  deferring cleanup m p = let (r, q) = m p in (r, (cleanup q).1)

unfoldable pub log : Level → String → List Text → Exec (Unit {0})
log level format args p = (ok tt, record p { history = logged level format args ∷ p.history })

-- `os.Getenv`.
unfoldable pub getenv : Text → Exec Text
unfolding value_of
getenv k p = (ok (value_of k p.env), p)

-- A call without a result: a handle is closed.
unfoldable pub note : Event → Exec (Unit {0})
note e p = (ok tt, record p { history = e ∷ p.history })
