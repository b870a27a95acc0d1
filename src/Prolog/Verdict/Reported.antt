-- ===== src/Prolog/Verdict/Reported.antt =====
-- How an error of the prolog that is reported is judged: `reportError` of
-- src/cmd/qrmi-ocs-prolog-go/main.go.
use qpu_resource.Prelude.{true, false, List, [], ◌∷◌, ◌≡◌, refl, sym, Text, String}
use mathlib.Core.Path.{subst}
use qpu_resource.Errors.{job_error, Error, wrapf, hook_code}
use qpu_resource.Hooks.{System, closed_resource, closed_def, closed_config, info, warn}
use qpu_resource.Hooks.Exec.{Exec, log, note}
use qpu_resource.Hooks.Codes.{IsKnown, IsKnown-wrapf}
use qpu_resource.Hooks.Sound.{Sound}
use qpu_resource.Hooks.Keeps.{Keeps, Keeps-note}
use qpu_resource.Hooks.JobEnv.{set_plugin_error}
use qpu_resource.Hooks.JobEnv.Sound.{set_plugin_error-Sound}
use qpu_resource.Prolog.Acquire.{report_error, reporting}
use qpu_resource.Prolog.Verdict.{Flags, flags, Early, Blamed, BlamedEarly, of_job, plain_code}
use qpu_resource.Prolog.Verdict.Judged.{
  Judged, Judged-raise, Judged-leaf, Judged-or_else, Judged-bind, Judged-worse,
}
use qpu_resource.Prolog.Verdict.Quiet.{plugin_error-Keeps}

abbrev pub Unrefused : Flags → Type 0
Unrefused v = v.refused ≡ false

pub blamed_early : (e : Error) (v : Flags) → BlamedEarly e v → Blamed e v
blamed_early e v (b, f) = b

pub logged :
    (before : Flags → Type 0) (bad : Error → Flags → Type 0) (format : String) (args : List Text)
    → Judged before (log warn format args) (λ _. before) bad
unfolding log flags
logged before bad format args = record { at = λ p w h. (h, w) }

pub logged_info :
    (before : Flags → Type 0) (bad : Error → Flags → Type 0) (format : String) (args : List Text)
    → Judged before (log info format args) (λ _. before) bad
unfolding log flags
logged_info before bad format args = record { at = λ p w h. (h, w) }

pub closed_resource-Keeps : Keeps flags (note closed_resource)
unfolding flags
closed_resource-Keeps = Keeps-note flags closed_resource λ h. refl

pub closed_def-Keeps : Keeps flags (note closed_def)
unfolding flags
closed_def-Keeps = Keeps-note flags closed_def λ h. refl

pub closed_config-Keeps : Keeps flags (note closed_config)
unfolding flags
closed_config-Keeps = Keeps-note flags closed_config λ h. refl

module _ (s : System) (path : Text) where
  -- An error that is reported stays that error.
  report_error-Judged {ℓ} :
      {A : Type ℓ} (before : Flags → Type 0) (e : Error) (good : A → Flags → Type 0)
      → Judged before (report_error s path e) good (λ x v. (x ≡ e) × before v)
  unfolding report_error
  report_error-Judged before e good =
      Judged-bind (λ _. before) good (λ x v. (x ≡ e) × before v) before _ _
        (Judged-or_else (λ _. before) (λ x v. (x ≡ e) × before v) (λ _. before) _ before
          (set_plugin_error s path (s.error_text e))
          (Judged-leaf before true (λ _. before) _
            (set_plugin_error-Sound true s path (s.error_text e))
            (plugin_error-Keeps s path (s.error_text e)) λ x v known h. h)
          λ x.
            logged before (λ y v. (y ≡ e) × before v) "failed to record plugin error: %v"
              (s.error_text x ∷ []))
        λ _. Judged-raise before e good

  pub reported {ℓ} :
      {A : Type ℓ} (before : Flags → Type 0) (good : A → Flags → Type 0) (e : Error)
      → ((v : Flags) → before v → Blamed e v)
      → Judged before (report_error s path e) good Blamed
  reported before good e blame =
      Judged-worse good (λ x v. (x ≡ e) × before v) before (report_error s path e) Blamed
        (λ x v (same, h). subst (λ y. Blamed y v) (sym same) (blame v h))
        (report_error-Judged before e good)

  -- A step that makes an error of its failure, which is reported.
  pub reporting-Judged {ℓ} :
      {A : Type ℓ} (before : Flags → Type 0) (good : A → Flags → Type 0)
      (bad' : Error → Flags → Type 0) (f : Error → Error) (m : Exec A)
      → Judged before m good bad'
      → ((e : Error) (v : Flags) → bad' e v → Blamed (f e) v)
      → Judged before (reporting s path f m) good Blamed
  reporting-Judged before good bad' f m j blame =
      Judged-or_else good Blamed bad' _ before m j λ e. reported (bad' e) good (f e) (blame e)

  -- A step that fails without a code before a resource is made, and whose failure is reported.
  pub step-Judged {ℓ} :
      {A : Type ℓ} (f : Error → Error) (m : Exec A)
      → ((e : Error) (v : Flags) → IsKnown false e → Early v → Blamed (f e) v)
      → Sound false m
      → Keeps flags m
      → Judged Early (reporting s path f m) (λ _. Early) Blamed
  step-Judged f m blame sound keeps =
      reporting-Judged Early (λ _. Early) (λ e v. IsKnown false e × Early v) f m
        (Judged-leaf Early false (λ e v. IsKnown false e × Early v) m sound keeps λ e v k h. (k, h))
        λ e v (k, h). blame e v k h

pub wrapped_plain :
    (f : String) (args : List Text) (e : Error) (v : Flags)
    → IsKnown false e
    → Early v
    → Blamed (wrapf f args e) v
wrapped_plain f args e v k (r, t, c) =
    plain_code (hook_code (wrapf f args e)) v (IsKnown-wrapf {c = false} f args e k).code r

pub blamed_job : (e : Error) (v : Flags) → Early v → Blamed (job_error e) v
unfolding hook_code
blamed_job e v (r, t, c) = of_job r t c

pub wrapped_early :
    (f : String) (args : List Text) (e : Error) (v : Flags)
    → BlamedEarly e v
    → Blamed (wrapf f args e) v
unfolding hook_code
wrapped_early f args e v (b, h) = b
