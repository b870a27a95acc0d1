-- ===== src/Qrmiocs/LogLevel/Words.antt =====
-- What `RustLogFromDebug` of src/internal/qrmiocs/loglevel.go returns.
use mathlib.Core.Path.{subst}
use qpu_resource.Prelude.{
  ℕ, ◌≤◌, arith, sym, ◌∙◌, text_eq, text_eq_iff, Any, Bool, true, false, List, [], ◌∷◌, ◌≡◌, refl,
  Option, none, some, Text, codes, if◌then◌else◌, is_nil, contains, leb, ◌==◌, inl, inr, Bool-cases,
}
use qpu_resource.Prelude.Int.{ℤ, pos, negsuc}
use qpu_resource.Strings.{trim_space, to_lower}
use qpu_resource.Decimal.{parse_int}
use qpu_resource.Qrmiocs.LogLevel.{
  level_words, level_of_number, level_of_word, number_or_word, rust_log_from_debug,
}

chosen :
    (low three four : Bool)
    → contains level_words (
        if low
        then codes "error"
        else if three
        then codes "info"
        else if four
        then codes "debug"
        else codes "trace")
      ≡ true
unfolding contains text_eq
chosen true three four = refl
chosen false true four = refl
chosen false false true = refl
chosen false false false = refl

level_of_number-contains : (z : ℤ) → contains level_words (level_of_number z) ≡ true
unfolding level_of_number
level_of_number-contains (negsuc n) = chosen true true true
level_of_number-contains (pos n) = chosen (leb n 2) (n == 3) (n == 4)

word_or_none :
    (b : Bool) (w : Text) {level : Text}
    → contains level_words w ≡ b
    → (if b then some w else none) ≡ some level
    → contains level_words level ≡ true
word_or_none true w e h = subst (λ x. contains level_words x ≡ true) (cc h) e
word_or_none false w e h = absurd (cc h)

number_or_word-contains :
    (o : Option ℤ) (v : Text) {level : Text}
    → number_or_word o v ≡ some level
    → contains level_words level ≡ true
unfolding level_of_word
number_or_word-contains (some z) v h =
    subst (λ x. contains level_words x ≡ true) (cc h) (level_of_number-contains z)
number_or_word-contains none v h =
    word_or_none (contains level_words (to_lower v)) (to_lower v) refl h

given :
    (b : Bool) (o : Option Text) {level : Text}
    → (if b then none else o) ≡ some level
    → o ≡ some level
given true o h = absurd (cc h)
given false o h = h

Any-contains : (xs : List Text) (a : Text) → Any (λ x. x ≡ a) xs → contains xs a ≡ true
unfolding contains
Any-contains [] a h = elim h [ ]
Any-contains (x ∷ xs) a (inl e) = ground (arith, text_eq_iff x a)
Any-contains (x ∷ xs) a (inr h) = ground (arith, Any-contains xs a h)

not_both : ¬ (true ≡ false)
not_both e = cc e

contains-Any : (xs : List Text) (a : Text) → contains xs a ≡ true → Any (λ x. x ≡ a) xs
unfolding contains
contains-Any [] a h = cc h
contains-Any (x ∷ xs) a h = elim (Bool-cases (text_eq x a)) [
  | inl e ↦ inl ((text_eq_iff x a).0 e)
  | inr e ↦ inr (contains-Any xs a (rw e at h))
]

word_stays :
    (level : Text) → Any (λ w. w ≡ level) level_words → rust_log_from_debug level ≡ some level
unfolding rust_log_from_debug text_eq
word_stays level (inl e) = subst (λ w. rust_log_from_debug w ≡ some w) e refl
word_stays level (inr (inl e)) = subst (λ w. rust_log_from_debug w ≡ some w) e refl
word_stays level (inr (inr (inl e))) = subst (λ w. rust_log_from_debug w ≡ some w) e refl
word_stays level (inr (inr (inr (inl e)))) = subst (λ w. rust_log_from_debug w ≡ some w) e refl
word_stays level (inr (inr (inr (inr (inl e))))) =
    subst (λ w. rust_log_from_debug w ≡ some w) e refl
word_stays level (inr (inr (inr (inr (inr e))))) = absurd e

level_stays :
    (raw : Text) {level : Text}
    → rust_log_from_debug raw ≡ some level
    → rust_log_from_debug level ≡ some level
level_stays raw {level} h = word_stays level (
    contains-Any level_words level (
      number_or_word-contains (parse_int (trim_space raw)) (trim_space raw)
        (given (is_nil (trim_space raw)) _ (unfold rust_log_from_debug in h))))

-- The level of a number: up to 2 is error, 3 is info, 4 is debug, and more is trace.
pub data LevelOf : ℤ → Text → Type 0 where
  negative : (n : ℕ) → LevelOf (negsuc n) (codes "error")
  low : {n : ℕ} → n ≤ 2 → LevelOf (pos n) (codes "error")
  three : {n : ℕ} → n ≡ 3 → LevelOf (pos n) (codes "info")
  four : {n : ℕ} → n ≡ 4 → LevelOf (pos n) (codes "debug")
  high : {n : ℕ} → 5 ≤ n → LevelOf (pos n) (codes "trace")

-- The level that a text without blanks around it stands for: a number's, or one of five words in
-- any case of its letters.
pub data Means : Text → Option Text → Type 0 where
  blank : Means [] none
  number :
      {v : Text} {level : Text} (z : ℤ)
      → parse_int v ≡ some z
      → LevelOf z level
      → Means v (some level)
  word :
      {v : Text}
      → parse_int v ≡ none
      → Any (λ w. w ≡ to_lower v) level_words
      → Means v (some (to_lower v))
  unknown :
      {v : Text} → parse_int v ≡ none → ¬ (Any (λ w. w ≡ to_lower v) level_words) → Means v none

level_of_number-LevelOf : (z : ℤ) → LevelOf z (level_of_number z)
unfolding level_of_number
level_of_number-LevelOf (negsuc n) = negative n
level_of_number-LevelOf (pos n) = elim (Bool-cases (leb n 2)) [
  | inl e ↦ rw e (low (ground arith))
  | inr e ↦ elim (Bool-cases (n == 3)) [
    | inl e3 ↦ rw (e, e3) (three (ground arith))
    | inr e3 ↦ elim (Bool-cases (n == 4)) [
      | inl e4 ↦ rw (e, e3, e4) (four (ground arith))
      | inr e4 ↦ rw (e, e3, e4) (high (ground arith))
    ]
  ]
]

number_or_word-Means : (o : Option ℤ) (v : Text) → parse_int v ≡ o → Means v (number_or_word o v)
unfolding level_of_word
number_or_word-Means (some z) v e = number z e (level_of_number-LevelOf z)
number_or_word-Means none v e = elim (Bool-cases (contains level_words (to_lower v))) [
  | inl known ↦ rw known (word e (contains-Any level_words (to_lower v) known))
  | inr other ↦
      rw other
        (unknown e λ a. absurd (not_both (sym (Any-contains level_words (to_lower v) a) ∙ other)))
]

given-Means : (v : Text) → Means v (if is_nil v then none else number_or_word (parse_int v) v)
given-Means [] = blank
given-Means (c ∷ v) = number_or_word-Means (parse_int (c ∷ v)) (c ∷ v) refl

-- A hook's level is read, without blanks around it, as a number or as one of five words in any case:
-- a number up to 2 is error, 3 is info, 4 is debug and a higher one is trace; anything else gives no
-- level. A level that was given is given again for itself.
pub rust_log_from_debug-Means :
    (raw : Text)
    → Means (trim_space raw) (rust_log_from_debug raw)
      × ((level : Text)
          → rust_log_from_debug raw ≡ some level
          → rust_log_from_debug level ≡ some level)
unfolding rust_log_from_debug
rust_log_from_debug-Means raw = (given-Means (trim_space raw), λ level h. level_stays raw h)
