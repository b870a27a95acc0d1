-- ===== src/Strings/Trim.antt =====
-- What trimming leaves, and when it changes nothing.
use qpu_resource.Prelude.{
  ℕ, Bool, true, false, [], ◌∷◌, ◌++◌, ◌&&◌, ◌≡◌, refl, inl, inr, arith, Text, is_nil, All,
  Bool-cases,
}
use qpu_resource.Strings.{trim_left, trim_right, trim_func}

-- The text begins, or ends, with a character that is not trimmed.
abbrev pub HeadKept : (ℕ → Bool) → Text → Type 0
HeadKept p [] = Unit
HeadKept p (c ∷ s) = p c ≡ false

abbrev pub LastKept : (ℕ → Bool) → Text → Type 0
LastKept p [] = Unit
LastKept p (c ∷ []) = p c ≡ false
LastKept p (c ∷ d ∷ s) = LastKept p (d ∷ s)

module _ (p : ℕ → Bool) where
  pub trim_left-HeadKept : (s : Text) → HeadKept p (trim_left p s)
  unfolding trim_left
  trim_left-HeadKept [] = tt
  trim_left-HeadKept (c ∷ s) = elim (Bool-cases (p c)) [
    | inl e ↦ rw e (trim_left-HeadKept s)
    | inr e ↦ rw e e
  ]

  pub trim_left-eq_self : (s : Text) → HeadKept p s → trim_left p s ≡ s
  unfolding trim_left
  trim_left-eq_self [] h = refl
  trim_left-eq_self (c ∷ s) h = rw h

  LastKept-cons : (c : ℕ) (s : Text) → LastKept p s → (p c && is_nil s) ≡ false → LastKept p (c ∷ s)
  LastKept-cons c [] h e = ground arith
  LastKept-cons c (d ∷ s) h e = h

  pub trim_right-LastKept : (s : Text) → LastKept p (trim_right p s)
  unfolding trim_right
  trim_right-LastKept [] = tt
  trim_right-LastKept (c ∷ s) = elim (Bool-cases (p c && is_nil (trim_right p s))) [
    | inl e ↦ rw e tt
    | inr e ↦ rw e (LastKept-cons c _ (trim_right-LastKept s) e)
  ]

  pub trim_right-eq_self : (s : Text) → LastKept p s → trim_right p s ≡ s
  unfolding trim_right
  trim_right-eq_self [] h = refl
  trim_right-eq_self (c ∷ []) h = rw h
  trim_right-eq_self (c ∷ d ∷ s) h = rw (trim_right-eq_self (d ∷ s) h) (ground arith)

  pub trim_right-HeadKept : (s : Text) → HeadKept p s → HeadKept p (trim_right p s)
  unfolding trim_right
  trim_right-HeadKept [] h = tt
  trim_right-HeadKept (c ∷ s) h = rw h h

  -- Trimming leaves a text that begins and ends with kept characters, or nothing.
  pub trim_func_kept : (s : Text) → HeadKept p (trim_func p s) × LastKept p (trim_func p s)
  unfolding trim_func
  trim_func_kept s =
      (trim_right-HeadKept _ (trim_left-HeadKept s), trim_right-LastKept (trim_left p s))

  pub trim_func-eq_self : (s : Text) → HeadKept p s → LastKept p s → trim_func p s ≡ s
  unfolding trim_func
  trim_func-eq_self s h l = rw (trim_left-eq_self s h) (trim_right-eq_self s l)

  pub trim_func_idem : (s : Text) → trim_func p (trim_func p s) ≡ trim_func p s
  trim_func_idem s = let (h, l) = trim_func_kept s in trim_func-eq_self _ h l

  -- Every trimmed character is one of the text's.
  module _ {ℓ} (Q : ℕ → Type ℓ) where
    pub trim_left-All : (s : Text) → All Q s → All Q (trim_left p s)
    unfolding trim_left
    trim_left-All [] h = tt
    trim_left-All (c ∷ s) (q, h) = elim (Bool-cases (p c)) [
      | inl e ↦ rw e (trim_left-All s h)
      | inr e ↦ rw e (q, h)
    ]

    pub trim_right-All : (s : Text) → All Q s → All Q (trim_right p s)
    unfolding trim_right
    trim_right-All [] h = tt
    trim_right-All (c ∷ s) (q, h) = elim (Bool-cases (p c && is_nil (trim_right p s))) [
      | inl e ↦ rw e tt
      | inr e ↦ rw e (q, trim_right-All s h)
    ]

    pub trim_func-All : (s : Text) → All Q s → All Q (trim_func p s)
    unfolding trim_func
    trim_func-All s h = trim_right-All _ (trim_left-All s h)

  pub All-HeadKept : (s : Text) → All (λ c. p c ≡ false) s → HeadKept p s
  All-HeadKept [] h = tt
  All-HeadKept (c ∷ s) (e, h) = e

  pub All-LastKept : (s : Text) → All (λ c. p c ≡ false) s → LastKept p s
  All-LastKept [] h = tt
  All-LastKept (c ∷ []) (e, h) = e
  All-LastKept (c ∷ d ∷ s) (e, h) = All-LastKept (d ∷ s) h

  pub LastKept-append :
      (s : Text) (c : ℕ) (t : Text) → LastKept p (c ∷ t) → LastKept p (s ++ (c ∷ t))
  LastKept-append [] c t h = h
  LastKept-append (x ∷ []) c t h = h
  LastKept-append (x ∷ y ∷ s) c t h = LastKept-append (y ∷ s) c t h

  pub trim_left-append_trimmed :
      (l s : Text) → All (λ c. p c ≡ true) l → trim_left p (l ++ s) ≡ trim_left p s
  unfolding trim_left
  trim_left-append_trimmed [] s h = refl
  trim_left-append_trimmed (c ∷ l) s (e, h) = rw (e, trim_left-append_trimmed l s h)

  trim_right-All_trimmed : (r : Text) → All (λ c. p c ≡ true) r → trim_right p r ≡ []
  unfolding trim_right
  trim_right-All_trimmed [] h = refl
  trim_right-All_trimmed (c ∷ r) (e, h) = rw (e, trim_right-All_trimmed r h)

  pub trim_right-append_trimmed :
      (s r : Text) → All (λ c. p c ≡ true) r → trim_right p (s ++ r) ≡ trim_right p s
  unfolding trim_right
  trim_right-append_trimmed [] r h = trim_right-All_trimmed r h
  trim_right-append_trimmed (c ∷ s) r h = rw (trim_right-append_trimmed s r h)

  HeadKept-append : (c : ℕ) (s t : Text) → HeadKept p (c ∷ s) → HeadKept p ((c ∷ s) ++ t)
  HeadKept-append c s t h = h

  -- What surrounds a text that begins and ends with kept characters is trimmed.
  pub trim_func-surrounded :
      (l s r : Text)
      → All (λ c. p c ≡ true) l
      → All (λ c. p c ≡ true) r
      → is_nil s ≡ false
      → HeadKept p s
      → LastKept p s
      → trim_func p (l ++ (s ++ r)) ≡ s
  unfolding trim_func
  trim_func-surrounded l [] r hl hr n h k = absurd (cc n)
  trim_func-surrounded l (c ∷ s) r hl hr n h k =
      rw (trim_left-append_trimmed l ((c ∷ s) ++ r) hl, trim_left-eq_self ((c ∷ s) ++ r) h)
        (rw (trim_right-append_trimmed (c ∷ s) r hr) (trim_right-eq_self (c ∷ s) k))
