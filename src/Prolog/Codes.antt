-- ===== src/Prolog/Codes.antt =====
-- The exit codes of src/cmd/qrmi-ocs-prolog-go/main.go: what each of its functions fails with.
use qpu_resource.Prelude.{Bool, false, inl, inr, is_nil, Text, Option, none, some}
use qpu_resource.Prelude.Int.{ℤ, pos, is_neg}
use qpu_resource.Decimal.{parse_int}
use qpu_resource.Machine.{Machine}
use qpu_resource.Trusted.{trusted_executable}
use qpu_resource.Errors.{Error, ok, Reply-cases}
use qpu_resource.Hooks.{System, Process, ResourceDef}
use qpu_resource.Hooks.Codes.{
  IsKnown, IsKnown-errorf, IsKnown-wrapf, IsKnown-failed, IsKnown-sentinel, KnownIn-if, KnownIn,
  known_rules,
}
use qpu_resource.Hooks.Sound.{Sound, sound_rules}
use qpu_resource.Hooks.JobEnv.Sound.{
  resolve_spool_file-Sound, set-Sound, set_pairs-Sound, set_plugin_error-Sound, write_atomic-Sound,
}
use qpu_resource.Prolog.Request.{
  Float64, first_of_lists, parse_job_requested_resource, parse_granted_slots,
}
use qpu_resource.Prolog.Scheduler.{scheduler_job_id, scheduler_job_uid, uid_or_error}
use qpu_resource.Prolog.Acquire.{report_error, release_token, keep_token}

pub scheduler_job_id-Sound : Sound false scheduler_job_id
unfolding scheduler_job_id
scheduler_job_id-Sound = search (sound_rules, known_rules)

pub uid_or_error-KnownIn :
    (uid owner : Text) (o : Option ℤ) → KnownIn false (uid_or_error uid owner o)
uid_or_error-KnownIn uid owner none = search (known_rules)
uid_or_error-KnownIn uid owner (some z) =
    KnownIn-if false (is_neg z) _ (ok z) (IsKnown-errorf _ _) tt

pub scheduler_job_uid-KnownIn :
    (m : Machine) (owner : Text) → KnownIn false (scheduler_job_uid m owner)
unfolding scheduler_job_uid
scheduler_job_uid-KnownIn m owner =
    KnownIn-if false (is_nil owner) (ok (pos m.real_uid)) _ tt
      (elim (Reply-cases (m.lookup_user owner)) [
        | inl (a, e) ↦ rw e (uid_or_error-KnownIn a.uid owner (parse_int a.uid))
        | inr (x, e) ↦ rw e (IsKnown-wrapf _ _ _ (IsKnown-failed x))
      ])

pub trusted_executable-KnownIn :
    (m : Machine) (path : Text) → KnownIn false (trusted_executable m path)
unfolding trusted_executable
trusted_executable-KnownIn m path = search (known_rules) depth 12

pub first_of_lists-KnownIn :
    (a b : Option Text) (name : Text) → KnownIn false (first_of_lists a b name)
first_of_lists-KnownIn (some value) b name = tt
first_of_lists-KnownIn none (some value) name = tt
first_of_lists-KnownIn none none name = IsKnown-wrapf _ _ _ (IsKnown-sentinel _)

pub parse_job_requested_resource-KnownIn :
    (out name : Text) → KnownIn false (parse_job_requested_resource out name)
unfolding parse_job_requested_resource
parse_job_requested_resource-KnownIn out name = first_of_lists-KnownIn _ _ name

pub parse_granted_slots-KnownIn :
    (fl : Float64) (raw : Text) → KnownIn false (parse_granted_slots fl raw)
unfolding parse_granted_slots
parse_granted_slots-KnownIn fl raw = search (known_rules)

module _ (s : System) where
  pub report_error-Sound :
      {c : Bool} {A : Type 0} (path : Text) (e : Error)
      → IsKnown c e
      → Sound c (report_error s {A = A} path e)
  unfolding report_error
  report_error-Sound path e k = search (sound_rules, known_rules, set_plugin_error-Sound)

  pub release_token-Sound : {c : Bool} (token : Text) → Sound c (release_token s token)
  unfolding release_token
  release_token-Sound token = search (sound_rules)

  pub now-Sound : {c : Bool} {A : Type 0} (f : Process → A) → Sound c (λ p. (ok (f p), p))
  now-Sound f = record { at = λ p w. (tt, w) }

  pub keep_token-Sound :
      (path backend : Text) (d : ResourceDef) (token : Text)
      → Sound false (keep_token s path backend d token)
  unfolding keep_token
  keep_token-Sound path backend d token =
      search
        (
          sound_rules, known_rules, report_error-Sound, release_token-Sound, set_pairs-Sound,
          resolve_spool_file-Sound, write_atomic-Sound, set-Sound, now-Sound,
        )
        depth 14
