-- ===== src/Prolog/Verdict.antt =====
-- What the history shows of a refusal by the QPU, and how it decides the errors of
-- `runWithConfig` of src/cmd/qrmi-ocs-prolog-go/main.go.
pub mod Judged
pub mod Quiet
pub mod Commands
pub mod Reported
pub mod Spine
use qpu_resource.Prelude.{ℕ, Bool, true, false, [], ◌∷◌, ◌≡◌, Option, none, some, if◌then◌else◌}
use qpu_resource.Errors.{Error, done, fails, hook_code}
use qpu_resource.Hooks.Codes.{is_known}
use qpu_resource.Hooks.{History, ran, asked_accessible, acquired, created_resource}

-- The QPU was not accessible, or gave no token, or could not be asked for either.
unfoldable pub refused : History → Bool
refused [] = false
refused (asked_accessible (done true) ∷ h) = refused h
refused (asked_accessible (done false) ∷ h) = true
refused (asked_accessible (fails x) ∷ h) = true
refused (acquired (fails x) ∷ h) = true
refused (_ ∷ h) = refused h

-- The resource of the QPU was made, or this was tried.
unfoldable pub tried : History → Bool
tried [] = false
tried (created_resource name kind r ∷ h) = true
tried (_ ∷ h) = tried h

-- The scheduler command that was run last has failed.
unfoldable pub command_failed : History → Bool
command_failed [] = false
command_failed (ran path args (done out) ∷ h) = false
command_failed (ran path args (fails x) ∷ h) = true
command_failed (_ ∷ h) = command_failed h

pub record Flags : Type 0 where
  pub refused : Bool
  pub tried : Bool
  pub command_failed : Bool

unfoldable pub flags : History → Flags
unfolding refused tried command_failed
flags h = record { refused = refused h; tried = tried h; command_failed = command_failed h }

-- The code that an error has, if any, by what the history shows.
pub data Verdict : Option ℕ → Flags → Type 0 where
  of_host : {v : Flags} → v.refused ≡ false → Verdict none v
  of_qpu : {v : Flags} → v.refused ≡ true → v.tried ≡ true → Verdict (some 99) v
  of_scheduler :
      {v : Flags}
      → v.refused ≡ false
      → v.tried ≡ false
      → v.command_failed ≡ true
      → Verdict (some 99) v
  of_job :
      {v : Flags}
      → v.refused ≡ false
      → v.tried ≡ false
      → v.command_failed ≡ false
      → Verdict (some 100) v

-- Before a resource is made; then also after a command that did not fail; and once it is made.
abbrev pub Fresh : Flags → Type 0
Fresh v = (v.refused ≡ false) × (v.tried ≡ false)

abbrev pub Early : Flags → Type 0
Early v = (v.refused ≡ false) × (v.tried ≡ false) × (v.command_failed ≡ false)

abbrev pub Late : Flags → Type 0
Late v = (v.refused ≡ false) × (v.tried ≡ true)

abbrev pub Blamed : Error → Flags → Type 0
Blamed e v = Verdict (hook_code e) v

-- An error before a resource is made.
abbrev pub BlamedEarly : Error → Flags → Type 0
BlamedEarly e v = Blamed e v × Fresh v

pub plain_code :
    (o : Option ℕ) (v : Flags) → is_known false o ≡ true → v.refused ≡ false → Verdict o v
plain_code none v k r = of_host r
plain_code (some code) v k r = absurd (cc k)
