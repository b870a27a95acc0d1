-- ===== src/Qrmi/Tokens.antt =====
-- The token that Acquire of src/internal/qrmi/qrmi_real.go gives.
use qpu_resource.Prelude.{ℕ, Bool, true, false, ◌≡◌, ◌↔◌, refl, Option, none, some, Text}
use qpu_resource.Errors.{ok, err}
use qpu_resource.Qrmi.{History, LibQrmi, ◌>>=◌}
use qpu_resource.Qrmi.Binding.{acquire, last_error, token_answer, resource_closed}

module _ (lib : LibQrmi) where
  token_answer_iff :
      (r : Bool × Option (ℕ × Text)) (past : History) (t : Text)
      → ((token_answer lib r past).0 ≡ ok t) ↔ ((a : ℕ) × (r ≡ (true, some (a, t))))
  unfolding ◌>>=◌ last_error
  token_answer_iff (true, some (a, s)) past t = (λ e. (a, cc), λ w. cc (w.1))
  token_answer_iff (true, none) past t = (λ e. absurd (cc e), λ w. absurd (cc (w.1)))
  token_answer_iff (false, token) past t = (λ e. absurd (cc e), λ w. absurd (cc (w.1)))

  -- Acquire on an open resource gives a token if and only if the library reports success and gives
  -- its text; on a resource that is closed or nil it fails without a call.
  pub acquire_iff :
      (h : History)
      → ((p : ℕ) (t : Text)
          → ((acquire lib (some (record { c = some p })) h).0 ≡ ok t)
            ↔ ((a : ℕ) × (lib.acquire h p ≡ (true, some (a, t)))))
        × (acquire lib (some (record { c = none })) h ≡ (err resource_closed, h))
        × (acquire lib none h ≡ (err resource_closed, h))
  unfolding acquire ◌>>=◌
  acquire_iff h = (λ p t. token_answer_iff (lib.acquire h p) _ t, refl, refl)
