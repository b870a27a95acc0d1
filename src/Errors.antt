-- ===== src/Errors.antt =====
-- Go errors as values. A message keeps its format and its arguments; formatting itself is not
-- modelled. `%w` keeps its cause, which `errors.As` and `errors.Is` look through.
-- The exit codes and `HookError` are those of src/internal/qrmiocs/sanitize.go.
use qpu_resource.Prelude.{
  if◌then◌else◌, ℕ, Bool, true, false, ◌||◌, List, Option, none, some, Text, String, ◌≡◌, refl, ◌⊎◌,
  inl, inr,
}

-- What the operating system reports, as far as the code tells it apart.
pub data Failure : Type 0 where
  not_exist : Failure
  exist : Failure
  other : ℕ → Failure

pub data Sentinel : Type 0 where
  no_record : Sentinel
  multiple_records : Sentinel
  requested_resource_not_found : Sentinel
  not_available : Sentinel

pub data Error : Type 0 where
  errorf : String → List Text → Error
  wrapf : String → List Text → Error → Error
  hook_error : ℕ → Error → Error
  sentinel : Sentinel → Error
  failed : Failure → Error
  joined : Error → Error → Error

pub data Result {ℓ} (A : Type ℓ) : Type ℓ where
  ok : A → Result A
  err : Error → Result A

-- What a call to the system, or to a library, gives: a value or a failure that carries no exit code.
pub data Reply {ℓ} (A : Type ℓ) : Type ℓ where
  done : A → Reply A
  fails : Failure → Reply A

abbrev pub reply {ℓ} : {A : Type ℓ} → Reply A → Result A
reply (done a) = ok a
reply (fails x) = err (failed x)

pub Reply-cases {ℓ} :
    {A : Type ℓ} (r : Reply A) → ((a : A) × (r ≡ done a)) ⊎ ((x : Failure) × (r ≡ fails x))
Reply-cases (done a) = inl (a, refl)
Reply-cases (fails x) = inr (x, refl)

module _ {ℓ κ} {A : Type ℓ} {B : Type κ} where
  infixl 5 ◌>>=◌
  abbrev pub ◌>>=◌ : Result A → (A → Result B) → Result B
  ok value >>= next = next value
  err failure >>= next = err failure

  pub >>=-eq-ok :
      (r : Result A) (next : A → Result B) {out : B}
      → (r >>= next) ≡ ok out
      → (value : A) × (r ≡ ok value) × (next value ≡ ok out)
  >>=-eq-ok (ok value) next h = (value, refl, h)
  >>=-eq-ok (err failure) next h = cc

-- Two steps, the first without a value.
infixl 5 ◌>>◌
abbrev pub ◌>>◌ {ℓ} : {A : Type ℓ} → Result (Unit {0}) → Result A → Result A
r >> next = r >>= λ _. next

-- `if !holds { return err }`.
abbrev pub guard : (holds : Bool) (failure : Error) → Result (Unit {0})
guard holds failure = if holds then ok tt else err failure

-- `return fmt.Errorf("…: %w", err)` where a call fails.
abbrev pub or_fail {ℓ} : {A : Type ℓ} → Result A → (Error → Error) → Result A
or_fail (ok a) f = ok a
or_fail (err e) f = err (f e)

pub Result-cases {ℓ} :
    {A : Type ℓ} (r : Result A) → ((a : A) × (r ≡ ok a)) ⊎ ((e : Error) × (r ≡ err e))
Result-cases (ok a) = inl (a, refl)
Result-cases (err e) = inr (e, refl)

abbrev pub exit_ok : ℕ
exit_ok = 0

abbrev pub exit_host_error : ℕ
exit_host_error = 1

abbrev pub exit_reschedule : ℕ
exit_reschedule = 99

abbrev pub exit_job_error : ℕ
exit_job_error = 100

abbrev pub job_error : Error → Error
job_error e = hook_error exit_job_error e

abbrev pub retry_error : Error → Error
retry_error e = hook_error exit_reschedule e

abbrev pub first {ℓ} : {A : Type ℓ} → Option A → Option A → Option A
first none o = o
first (some a) o = some a

-- `errors.As` for a `*HookError`: the first one of the tree, in depth-first order.
unfoldable pub hook_code : Error → Option ℕ
hook_code (errorf f args) = none
hook_code (wrapf f args e) = hook_code e
hook_code (hook_error code e) = some code
hook_code (sentinel s) = none
hook_code (failed x) = none
hook_code (joined a b) = first (hook_code a) (hook_code b)

abbrev pub code_or_host_error : Option ℕ → ℕ
code_or_host_error none = exit_host_error
code_or_host_error (some code) = code

-- `ExitCode`, of an error or of nil.
unfoldable pub exit_code : Option Error → ℕ
unfolding hook_code
exit_code none = exit_ok
exit_code (some e) = code_or_host_error (hook_code e)

-- `errors.Is(err, fs.ErrNotExist)`.
unfoldable pub is_not_exist : Error → Bool
is_not_exist (failed not_exist) = true
is_not_exist (wrapf f args e) = is_not_exist e
is_not_exist (hook_error code e) = is_not_exist e
is_not_exist (joined a b) = is_not_exist a || is_not_exist b
is_not_exist _ = false

-- `errors.Is(err, fs.ErrExist)`.
unfoldable pub is_exist : Error → Bool
is_exist (failed exist) = true
is_exist (wrapf f args e) = is_exist e
is_exist (hook_error code e) = is_exist e
is_exist (joined a b) = is_exist a || is_exist b
is_exist _ = false

-- `errors.Is(err, errRequestedResourceNotFound)`.
unfoldable pub is_requested_resource_not_found : Error → Bool
is_requested_resource_not_found (sentinel requested_resource_not_found) = true
is_requested_resource_not_found (wrapf f args e) = is_requested_resource_not_found e
is_requested_resource_not_found (hook_error code e) = is_requested_resource_not_found e
is_requested_resource_not_found (joined a b) =
    is_requested_resource_not_found a || is_requested_resource_not_found b
is_requested_resource_not_found _ = false

-- A guarded computation that succeeds has passed its guard.
pub guard_passed {ℓ} :
    {A : Type ℓ} (b : Bool) (e : Error) (k : Result A) {a : A}
    → (guard b e >> k) ≡ ok a
    → (b ≡ true) × (k ≡ ok a)
guard_passed true e k h = (refl, h)
guard_passed false e k h = absurd (cc h)

pub guard_open {ℓ} :
    {A : Type ℓ} (b : Bool) (e : Error) (k : Result A) → b ≡ true → (guard b e >> k) ≡ k
guard_open true e k h = refl
guard_open false e k h = absurd (cc h)
