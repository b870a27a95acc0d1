-- ===== src/Strings/Lines.antt =====
-- What a scan returns for a text that is given by its lines.
use qpu_resource.Prelude.{
  ℕ, ◌<◌, Bool, List, [], ◌∷◌, ◌++◌, ◌≡◌, refl, arith, Option, none, Text, leb, ◌==◌, All, inl, inr,
  Bool-cases, ◌≢◌,
}
use qpu_resource.Strings.{byte_size}
use qpu_resource.Strings.Split.{Lacks}
use qpu_resource.Strings.Trim.{LastKept}
use qpu_resource.Strings.Scanner.{lines_of, push_line, drop_cr, scan_tokens, scan}

abbrev pub is_cr : ℕ → Bool
is_cr c = c == b'\r'

pub lines_of-Lacks : (s t : Text) → Lacks b'\n' s → lines_of (s ++ (b'\n' ∷ t)) ≡ s ∷ lines_of t
unfolding lines_of
lines_of-Lacks [] t h = refl
lines_of-Lacks (c ∷ s) t (n, h) = ground (arith, lines_of-Lacks s t h)

push_line-All :
    (c : ℕ) (ls : List Text) → c ≢ b'\n' → All (Lacks b'\n') ls → All (Lacks b'\n') (push_line c ls)
push_line-All c [] n h = ((n, tt), tt)
push_line-All c (p ∷ ls) n (hp, h) = ((n, hp), h)

pub lines_of-All-Lacks : (s : Text) → All (Lacks b'\n') (lines_of s)
unfolding lines_of
lines_of-All-Lacks [] = tt
lines_of-All-Lacks (c ∷ s) = elim (Bool-cases (c == b'\n')) [
  | inl e ↦ rw e (tt, lines_of-All-Lacks s)
  | inr e ↦ rw e (push_line-All c _ (ground arith) (lines_of-All-Lacks s))
]

pub drop_cr-eq_self : (s : Text) → LastKept is_cr s → drop_cr s ≡ s
unfolding drop_cr
drop_cr-eq_self [] h = refl
drop_cr-eq_self (c ∷ []) h = rw h
drop_cr-eq_self (c ∷ d ∷ s) h = rw (drop_cr-eq_self (d ∷ s) h)

pub drop_cr-All {ℓ} : (Q : ℕ → Type ℓ) (s : Text) → All Q s → All Q (drop_cr s)
unfolding drop_cr
drop_cr-All Q [] h = tt
drop_cr-All Q (c ∷ []) (q, h) = elim (Bool-cases (c == b'\r')) [
  | inl e ↦ rw e tt
  | inr e ↦ rw e (q, tt)
]
drop_cr-All Q (c ∷ d ∷ s) (q, h) = (q, drop_cr-All Q (d ∷ s) h)

-- No scanned line holds a newline.
pub scan_tokens-All-Lacks :
    (limit : ℕ) (e : Option _) (ls : List Text)
    → All (Lacks b'\n') ls
    → All (Lacks b'\n') (scan_tokens limit e ls).lines
unfolding scan_tokens
scan_tokens-All-Lacks limit e [] h = tt
scan_tokens-All-Lacks limit e (l ∷ ls) (hl, h) = elim (Bool-cases (leb limit (byte_size l))) [
  | inl big ↦ rw big tt
  | inr small ↦ rw small (drop_cr-All _ l hl, scan_tokens-All-Lacks limit e ls h)
]

-- A single line that fits the buffer and does not end with a carriage return.
pub scan_one_line :
    (limit : ℕ) (s : Text)
    → Lacks b'\n' s
    → LastKept is_cr s
    → byte_size s < limit
    → scan limit none (s ++ b'\n' ∷ []) ≡ record { lines = s ∷ []; error = none }
unfolding scan scan_tokens
scan_one_line limit s h kept fits =
    rw (lines_of-Lacks s [] h, scan_tokens)
      (rw (drop_cr-eq_self s kept) (unfold lines_of in ground arith))
