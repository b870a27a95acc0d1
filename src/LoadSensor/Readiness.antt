-- ===== src/LoadSensor/Readiness.antt =====
-- When a QPU is reported as ready: every failure on the way counts as not ready.
use Prim.{⊥}
use mathlib.Core.Path.{subst}
use qpu_resource.Prelude.{
  ℕ, Bool, true, false, [], ◌∷◌, ◌≡◌, ◌↔◌, refl, Option, none, some, Text, codes, text_eq,
  text_eq_iff, if◌then◌else◌, is_nil, ◌⊎◌, inl, inr,
}
use qpu_resource.Strings.{trim_space}
use qpu_resource.Prelude.Int.{ℤ}
use qpu_resource.Errors.{Error, errorf, Result, ok, err, Reply, done, fails}
use qpu_resource.Availability.{
  unavailable, status_of, Provider, static_provider, warden_provider, WardenReply, response,
  decoded, malformed, trailing, invalid_url, no_response, is_success, is_negative, Answer,
  state_answer, file_answer, static_status, body_status, warden_status, Surroundings,
  provider_status,
}
use qpu_resource.LoadSensor.{reported, sensor_answer}

-- The file's text is "1", with blanks around it.
abbrev pub SaysReady : Reply Text → Type 0
SaysReady content = (raw : Text) × (content ≡ done raw) × (trim_space raw ≡ codes "1")

-- A successful response says that the QPU is accessible, with no negative number of slots.
abbrev pub SaysAccessible : WardenReply → Type 0
SaysAccessible r =
    (code : ℕ) × (slots : Option ℤ) × (r ≡ response code (decoded (some true) slots))
    × (is_success code ≡ true)
    × (is_negative slots ≡ false)

-- There is a provider, and it says so.
abbrev pub IsReady : Result Provider → Surroundings → Type 0
IsReady (err e) w = ⊥
IsReady (ok (static_provider p)) w =
    (is_nil (trim_space p.state_file) ≡ true) × (p.ready ≡ true)
    ⊎ (is_nil (trim_space p.state_file) ≡ false) × SaysReady (w.state_file p.state_file)
IsReady (ok (warden_provider p)) w = SaysAccessible (w.request p)

abbrev Ready : Answer → Type 0
Ready a = (reported a).ready ≡ true

state_one :
    (one zero : Bool) (e : Error)
    → Ready (
        if one
        then (status_of true "state file ready", none)
        else if zero
        then (status_of false "state file unavailable", none)
        else unavailable "state file malformed" e)
    → one ≡ true
state_one true zero e h = refl
state_one false true e h = h
state_one false false e h = h

-- Two tests before a response counts.
passes :
    (good bad : Bool) (e x : Error) (slots : Option ℤ)
    → Ready (
        if good
        then (if bad then unavailable "warden response has invalid slots" e else (
          record { ready = true; reason = "warden reports accessible"; slots_available = slots },
          none,
        ))
        else unavailable "warden returned HTTP error" x)
    → (good ≡ true) × (bad ≡ false)
passes true true e x slots h = absurd (cc h)
passes true false e x slots h = (refl, refl)
passes false bad e x slots h = absurd (cc h)

unready :
    (good : Bool) (a b : Answer)
    → (reported a).ready ≡ false
    → (reported b).ready ≡ false
    → Ready (if good then a else b)
    → ⊥
unready true a b x y h = cc (x, h)
unready false a b x y h = cc (y, h)

state-Ready : (state : Text) → Ready (state_answer state) ↔ (state ≡ codes "1")
unfolding state_answer
state-Ready state = (
  λ h. (text_eq_iff state (codes "1")).0 (
      state_one (text_eq state (codes "1")) (text_eq state (codes "0"))
        (errorf "invalid state file value %q" (state ∷ [])) h),
  λ e. rw ((text_eq_iff state (codes "1")).1 e) refl,
)

file-Ready : (content : Reply Text) → Ready (file_answer content) ↔ SaysReady content
file-Ready (fails x) = (λ h. absurd (cc h), λ (raw, e, t). absurd (cc e))
file-Ready (done raw) = (
  λ h. (raw, refl, (state-Ready (trim_space raw)).0 h),
  λ (raw', e, t). (state-Ready (trim_space raw)).1 (subst (λ r. trim_space r ≡ codes "1") (cc e) t),
)

warden-Ready : (r : WardenReply) → Ready (warden_status r) ↔ SaysAccessible r
unfolding warden_status body_status
warden-Ready (invalid_url x) = (λ h. absurd (cc h), λ (code, slots, e, s, n). absurd (cc e))
warden-Ready (no_response x) = (λ h. absurd (cc h), λ (code, slots, e, s, n). absurd (cc e))
warden-Ready (response code (malformed x)) = (
  λ h. absurd (unready (is_success code) _ _ refl refl h),
  λ (code', slots, e, s, n). absurd (cc e),
)
warden-Ready (response code (trailing x)) = (
  λ h. absurd (unready (is_success code) _ _ refl refl h),
  λ (code', slots, e, s, n). absurd (cc e),
)
warden-Ready (response code (decoded none slots)) = (
  λ h. absurd (unready (is_success code) _ _ refl refl h),
  λ (code', slots', e, s, n). absurd (cc e),
)
warden-Ready (response code (decoded (some false) slots)) = (
  λ h. absurd (unready (is_success code) _ _ refl refl h),
  λ (code', slots', e, s, n). absurd (cc e),
)
warden-Ready (response code (decoded (some true) slots)) = (
  λ h.
      let (good, kept) = passes (is_success code) (is_negative slots) _ _ slots h in
      (code, slots, refl, good, kept),
  λ (code', slots', e, s, n).
      rw
        (
          subst (λ c. is_success c ≡ true) {x = code'} {y = code} (cc e) s,
          subst (λ o. is_negative o ≡ false) {x = slots'} {y = slots} (cc e) n,
        )
        refl,
)

static-Ready :
    (unset ready : Bool) (content : Reply Text)
    → Ready
        (if unset then (status_of ready "configured static state", none) else file_answer content)
      ↔ ((unset ≡ true) × (ready ≡ true) ⊎ (unset ≡ false) × SaysReady content)
static-Ready true ready content =
    (λ h. inl (refl, h), λ x. elim x [ inl (_, h) ↦ h | inr (e, _) ↦ absurd (cc e) ])
static-Ready false ready content = (
  λ h. inr (refl, (file-Ready content).0 h),
  λ x. elim x [ inl (e, _) ↦ absurd (cc e) | inr (_, h) ↦ (file-Ready content).1 h ],
)

-- In a cycle the QPU is reported as ready exactly if there is a provider and it says so: the static
-- one by its setting or by a state file with the text "1", the warden by a successful response
-- with `is_accessible` true and no negative number of slots. Whatever fails counts as not ready.
pub reported-IsReady :
    (p : Result Provider) (w : Surroundings)
    → ((reported (sensor_answer p w)).ready ≡ true) ↔ IsReady p w
unfolding sensor_answer provider_status static_status
reported-IsReady (err e) w = (λ h. cc h, λ h. absurd h)
reported-IsReady (ok (static_provider p)) w =
    static-Ready (is_nil (trim_space p.state_file)) p.ready (w.state_file p.state_file)
reported-IsReady (ok (warden_provider p)) w = warden-Ready (w.request p)
