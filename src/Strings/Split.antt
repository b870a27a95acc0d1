-- ===== src/Strings/Split.antt =====
-- Splitting at a separator, against joining; cutting; and scanning for characters.
use qpu_resource.Prelude.{
  ℕ, true, false, List, [], ◌∷◌, ◌++◌, ◌≡◌, refl, ap, ◌≢◌, inl, inr, arith, Text, ◌==◌, All,
  All-append, Bool-cases, append-nil, some, has_char,
}
use qpu_resource.Strings.{split, push_char, cut, cut_prefix, rest_or, trim_prefix, contains_any}

abbrev pub Lacks : ℕ → Text → Type 0
Lacks b = All (λ c. c ≢ b)

-- `strings.Join` with a separator of one character.
unfoldable pub join : ℕ → List Text → Text
join sep [] = []
join sep (p ∷ []) = p
join sep (p ∷ q ∷ ps) = p ++ (sep ∷ join sep (q ∷ ps))

push_chars : Text → List Text → List Text
push_chars [] ps = ps
push_chars (c ∷ s) ps = push_char c (push_chars s ps)

push_chars-cons : (s p : Text) (ps : List Text) → push_chars s (p ∷ ps) ≡ (s ++ p) ∷ ps
unfolding push_chars
push_chars-cons [] p ps = refl
push_chars-cons (c ∷ s) p ps = rw (push_chars-cons s p ps)

module _ (sep : ℕ) where
  split-append : (s t : Text) → Lacks sep s → split sep (s ++ t) ≡ push_chars s (split sep t)
  unfolding split push_chars
  split-append [] t h = refl
  split-append (c ∷ s) t (n, h) = ground (arith, split-append s t h)

  split-nil : split sep [] ≡ [] ∷ []
  unfolding split
  split-nil = refl

  pub split_at_sep : (t : Text) → split sep (sep ∷ t) ≡ [] ∷ split sep t
  unfolding split
  split_at_sep t = ground arith

  -- A part without separators comes back alone.
  pub split-Lacks : (s : Text) → Lacks sep s → split sep s ≡ s ∷ []
  split-Lacks s h =
      rw (← append-nil s) (rw (split-append s [] h, split-nil) (rw (push_chars-cons s [] [])))

  pub split-Lacks_sep : (s t : Text) → Lacks sep s → split sep (s ++ (sep ∷ t)) ≡ s ∷ split sep t
  split-Lacks_sep s t h =
      rw (split-append s (sep ∷ t) h, split_at_sep t, push_chars-cons s [] _, append-nil)

  -- Splitting a join gives the parts back, if there is one and none holds the separator.
  pub split-join :
      (p : Text) (ps : List Text)
      → All (Lacks sep) (p ∷ ps)
      → split sep (join sep (p ∷ ps)) ≡ p ∷ ps
  unfolding join
  split-join p [] (h, _) = split-Lacks p h
  split-join p (q ∷ ps) (h, hs) = rw (split-Lacks_sep p _ h, split-join q ps hs)

  push_char-All :
      (c : ℕ) (ps : List Text) → c ≢ sep → All (Lacks sep) ps → All (Lacks sep) (push_char c ps)
  push_char-All c [] n h = ((n, tt), tt)
  push_char-All c (p ∷ ps) n (hp, h) = ((n, hp), h)

  -- No part of a split holds the separator.
  pub split-All-Lacks : (s : Text) → All (Lacks sep) (split sep s)
  unfolding split
  split-All-Lacks [] = (tt, tt)
  split-All-Lacks (c ∷ s) = elim (Bool-cases (c == sep)) [
    | inl e ↦ rw e (tt, split-All-Lacks s)
    | inr e ↦ rw e (push_char-All c _ (ground arith) (split-All-Lacks s))
  ]

  pub cut-Lacks :
      (s t : Text)
      → Lacks sep s
      → cut sep (s ++ (sep ∷ t)) ≡ record { before = s; after = t; found = true }
  unfolding cut
  cut-Lacks [] t h = ground arith
  cut-Lacks (c ∷ s) t (n, h) = ground (arith, cut-Lacks s t h)

pub cut_prefix-append : (p s : Text) → cut_prefix p (p ++ s) ≡ some s
unfolding cut_prefix
cut_prefix-append [] s = refl
cut_prefix-append (c ∷ p) s = ground (arith, cut_prefix-append p s)

pub trim_prefix-append : (p s : Text) → trim_prefix p (p ++ s) ≡ s
trim_prefix-append p s = ap (rest_or (p ++ s)) (cut_prefix-append p s)

pub cut_prefix-eq-append : (p s : Text) {r : Text} → cut_prefix p s ≡ some r → s ≡ p ++ r
unfolding cut_prefix
cut_prefix-eq-append [] s h = ground arith
cut_prefix-eq-append (x ∷ p) [] h = cc
cut_prefix-eq-append (x ∷ p) (c ∷ s) {r} h = ground (arith, cut_prefix-eq-append p s {r = r})

pub has_char-Lacks : (x : ℕ) (s : Text) → has_char x s ≡ false → Lacks x s
unfolding has_char
has_char-Lacks x [] h = tt
has_char-Lacks x (c ∷ s) h = ground (arith, has_char-Lacks x s)

-- A text that holds none of the characters.
pub contains_any-All :
    (chars s : Text) → contains_any chars s ≡ false → All (λ c. has_char c chars ≡ false) s
unfolding contains_any
contains_any-All chars [] h = tt
contains_any-All chars (c ∷ s) h = ground (arith, contains_any-All chars s)

pub All-contains_any :
    (chars s : Text) → All (λ c. has_char c chars ≡ false) s → contains_any chars s ≡ false
unfolding contains_any
All-contains_any chars [] h = refl
All-contains_any chars (c ∷ s) h = ground (arith, All-contains_any chars s h.1)

pub join-Lacks : (x sep : ℕ) (ps : List Text) → sep ≢ x → All (Lacks x) ps → Lacks x (join sep ps)
unfolding join
join-Lacks x sep [] n h = tt
join-Lacks x sep (p ∷ []) n (h, _) = h
join-Lacks x sep (p ∷ q ∷ ps) n (h, hs) =
    All-append (λ c. c ≢ x) p (sep ∷ join sep (q ∷ ps)) h (n, join-Lacks x sep (q ∷ ps) n hs)

module _ {ℓ} (Q : ℕ → Type ℓ) (sep : ℕ) where
  push_char-AllAll : (c : ℕ) (ps : List Text) → Q c → All (All Q) ps → All (All Q) (push_char c ps)
  push_char-AllAll c [] q h = ((q, tt), tt)
  push_char-AllAll c (p ∷ ps) q (hp, h) = ((q, hp), h)

  -- The characters of the parts are characters of the text.
  pub split-All : (s : Text) → All Q s → All (All Q) (split sep s)
  unfolding split
  split-All [] h = (tt, tt)
  split-All (c ∷ s) (q, h) = elim (Bool-cases (c == sep)) [
    | inl e ↦ rw e (tt, split-All s h)
    | inr e ↦ rw e (push_char-AllAll c _ q (split-All s h))
  ]

pub cut-Lacks_not_found :
    (sep : ℕ) (s : Text)
    → Lacks sep s
    → cut sep s ≡ record { before = s; after = []; found = false }
unfolding cut
cut-Lacks_not_found sep [] h = refl
cut-Lacks_not_found sep (c ∷ s) (n, h) = ground (arith, cut-Lacks_not_found sep s h)
