-- ===== src/Prolog/Tokens/Giving.antt =====
-- An error after the acquisition gives the token back and is reported: `_ = resource.Release(token)`
-- and `reportError` of src/cmd/qrmi-ocs-prolog-go/main.go.
use qpu_resource.Prelude.{List, [], ◌∷◌, ◌≡◌, refl, ◌∙◌, ap, Text, text_eq_refl}
use qpu_resource.Errors.{Error}
use qpu_resource.Hooks.{System, released, warn}
use qpu_resource.Hooks.Exec.{Exec, attempt}
use qpu_resource.Hooks.Keeps.{Keeps-or_else, Keeps-log}
use qpu_resource.Hooks.Triple.{
  Triple, Triple-bind, Triple-Keeps, Triple-raise, Triple-or_else, Triple-call, Triple-attempt,
}
use qpu_resource.Hooks.JobEnv.{set_plugin_error}
use qpu_resource.Hooks.JobEnv.Quiet.{set_plugin_error-Keeps}
use qpu_resource.Prolog.Acquire.{report_error, release_token, releasing, reporting}
use qpu_resource.Prolog.Tokens.{View, view, unreleased, remove_first, Holds}
use qpu_resource.Prolog.Tokens.Held.{view-IgnoresAppends}

module _ (s : System) (path : Text) where
  -- An error is reported without a change of the tokens, and stays an error.
  pub report_error-Triple {ℓ} :
      {A : Type ℓ} (before : View → Type 0) (good : A → View → Type 0) (e : Error)
      → Triple view before (report_error s path e) good before
  unfolding report_error view
  report_error-Triple before good e =
      Triple-bind view (λ _. before) good before before _ _
        (Triple-Keeps view before _ (
          Keeps-or_else view (set_plugin_error s path (s.error_text e)) _
            (set_plugin_error-Keeps view view-IgnoresAppends s path (s.error_text e))
            λ x.
              Keeps-log view warn "failed to record plugin error: %v" (s.error_text x ∷ [])
                λ h. refl))
        λ _. Triple-raise view before e good

  pub reporting-Triple {ℓ} :
      {A : Type ℓ} (before : View → Type 0) (good : A → View → Type 0) (bad : View → Type 0)
      (f : Error → Error) (m : Exec A)
      → Triple view before m good bad
      → Triple view before (reporting s path f m) good bad
  reporting-Triple before good bad f m t =
      Triple-or_else view good bad _ bad before m t λ e. report_error-Triple bad good (f e)

  module _ (ts : List Text) (token : Text) where
    given_back : (v : List Text) → v ≡ token ∷ ts → remove_first token v ≡ ts
    given_back v h = ap (remove_first token) h ∙ rw (text_eq_refl token)

    release_token-Triple :
        Triple view (Holds (token ∷ ts)) (release_token s token) (λ _. Holds ts) (Holds ts)
    unfolding release_token view unreleased
    release_token-Triple =
        Triple-call view (λ _. Holds ts) (Holds ts) (Holds (token ∷ ts)) (released token)
          (λ h. s.release h token) (λ a h b. given_back (unreleased h) b)
          (λ x h b. given_back (unreleased h) b)

    pub releasing-Triple {ℓ} :
        {A : Type ℓ} (before : View → Type 0) (good : A → View → Type 0) (f : Error → Error)
        (m : Exec A)
        → Triple view before m good (Holds (token ∷ ts))
        → Triple view before (releasing s path token f m) good (Holds ts)
    releasing-Triple before good f m t =
        Triple-or_else view good (Holds (token ∷ ts)) _ (Holds ts) before m t λ e.
          Triple-bind view (λ _. Holds ts) good (Holds ts) (Holds (token ∷ ts))
            (attempt (release_token s token)) _
            (Triple-attempt view (Holds ts) (Holds (token ∷ ts)) (Holds ts) (release_token s token)
              release_token-Triple)
            λ _. report_error-Triple (Holds ts) good (f e)
