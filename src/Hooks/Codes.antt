-- ===== src/Hooks/Codes.antt =====
-- Errors of src/internal/qrmiocs/sanitize.go and of the hooks whose exit code is one that the
-- scheduler knows, and actions that fail with no others.
use qpu_resource.Prelude.{
  ℕ, Bool, true, false, ◌||◌, ◌&&◌, List, ◌≡◌, refl, Option, none, some, Text, String, ◌==◌,
  if◌then◌else◌,
}
use qpu_resource.Errors.{
  Error, errorf, wrapf, sentinel, failed, joined, Sentinel, Failure, job_error, retry_error,
  hook_code, first, Result, ok, err, Reply, done, fails, reply, guard, or_fail, ◌>>=◌,
}

-- The code of an error: none, or where codes are `coded` one of those for a reschedule and for an
-- error of the job.
abbrev pub is_known : Bool → Option ℕ → Bool
is_known coded none = true
is_known coded (some code) = coded && (code == 99 || code == 100)

pub record IsKnown (coded : Bool) (e : Error) : Type 0 where
  pub code : is_known coded (hook_code e) ≡ true

-- A result that is a value or a known error.
abbrev pub KnownIn {ℓ} : {A : Type ℓ} → Bool → Result A → Type 0
KnownIn coded (ok a) = Unit
KnownIn coded (err e) = IsKnown coded e

plain_known : (c : Bool) (o : Option ℕ) → is_known false o ≡ true → is_known c o ≡ true
plain_known c none h = refl
plain_known c (some code) h = absurd (cc h)

module _ (c : Bool) where
  known_first :
      (a b : Option ℕ) → is_known c a ≡ true → is_known c b ≡ true → is_known c (first a b) ≡ true
  known_first none b p q = q
  known_first (some a) b p q = p

module _ {c : Bool} where
  -- An error without a code is always known.
  pub IsKnown-plain : (e : Error) → IsKnown false e → IsKnown c e
  IsKnown-plain e k = record { code = plain_known c (hook_code e) k.code }

  pub IsKnown-errorf : (f : String) (args : List Text) → IsKnown c (errorf f args)
  unfolding hook_code
  IsKnown-errorf f args = record { code = refl }

  pub IsKnown-sentinel : (x : Sentinel) → IsKnown c (sentinel x)
  unfolding hook_code
  IsKnown-sentinel x = record { code = refl }

  pub IsKnown-failed : (x : Failure) → IsKnown c (failed x)
  unfolding hook_code
  IsKnown-failed x = record { code = refl }

  pub IsKnown-wrapf :
      (f : String) (args : List Text) (e : Error) → IsKnown c e → IsKnown c (wrapf f args e)
  unfolding hook_code
  IsKnown-wrapf f args e k = record { code = k.code }

  pub IsKnown-joined : (a b : Error) → IsKnown c a → IsKnown c b → IsKnown c (joined a b)
  unfolding hook_code
  IsKnown-joined a b k l = record { code = known_first c (hook_code a) (hook_code b) k.code l.code }

  pub KnownIn-guard : (b : Bool) (e : Error) → IsKnown c e → KnownIn c (guard b e)
  KnownIn-guard true e k = tt
  KnownIn-guard false e k = k

  pub KnownIn-or_fail {ℓ} :
      {A : Type ℓ} (r : Result A) (f : Error → Error)
      → ((e : Error) → IsKnown c e → IsKnown c (f e))
      → KnownIn c r
      → KnownIn c (or_fail r f)
  KnownIn-or_fail (ok a) f k h = tt
  KnownIn-or_fail (err e) f k h = k e h

module _ (c : Bool) where
  pub KnownIn-reply {ℓ} : {A : Type ℓ} (r : Reply A) → KnownIn c (reply r)
  KnownIn-reply (done a) = tt
  KnownIn-reply (fails x) = IsKnown-failed x

  pub KnownIn-bind {ℓ κ} :
      {A : Type ℓ} {B : Type κ} (r : Result A) (f : A → Result B)
      → KnownIn c r
      → ((a : A) → KnownIn c (f a))
      → KnownIn c (r >>= f)
  KnownIn-bind (ok a) f k h = h a
  KnownIn-bind (err e) f k h = k

  pub KnownIn-if {ℓ} :
      {A : Type ℓ} (b : Bool) (r q : Result A)
      → KnownIn c r
      → KnownIn c q
      → KnownIn c (if b then r else q)
  KnownIn-if true r q k l = k
  KnownIn-if false r q k l = l

pub IsKnown-job_error : (e : Error) → IsKnown true (job_error e)
unfolding hook_code
IsKnown-job_error e = record { code = refl }

pub IsKnown-retry_error : (e : Error) → IsKnown true (retry_error e)
unfolding hook_code
IsKnown-retry_error e = record { code = refl }

pub ruleset known_rules = (
  IsKnown-errorf, IsKnown-sentinel, IsKnown-failed, IsKnown-wrapf, IsKnown-job_error,
  IsKnown-retry_error, IsKnown-joined, KnownIn-reply, KnownIn-guard, KnownIn-or_fail, KnownIn-bind,
  KnownIn-if,
)
