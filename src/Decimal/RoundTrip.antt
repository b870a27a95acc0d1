-- ===== src/Decimal/RoundTrip.antt =====
-- A printed number is read back.
use qpu_resource.Prelude.{
  ℕ, zero, suc, ◌+◌, ◌-◌, ◌*◌, ◌/◌, ◌%◌, ◌≤◌, true, false, ◌&&◌, [], ◌∷◌, ◌++◌, Text, Option, none,
  some, ltb, leb, ◌==◌, is_nil, all, arith, ◌≡◌, refl, inl, inr, Bool-cases, ◌∙◌,
}
use qpu_resource.Prelude.Int.{ℤ, pos, negsuc}
use qpu_resource.Decimal.{
  is_digit, digits, format_nat, format_int, max_int, value, is_number, parse_magnitude, parse_int,
  negate, plain,
}

abbrev pub IsDigit : ℕ → Type 0
IsDigit c = (b'0' ≤ c) × (c ≤ b'9')

value-concat : (n d : ℕ) (s : Text) → value n (s ++ (b'0' + d) ∷ []) ≡ value n s * 10 + d
unfolding value
value-concat n d [] = omega arith
value-concat n d (c ∷ s) = value-concat (n * 10 + (c - b'0')) d s

all-concat :
    (s : Text) (c : ℕ) → all is_digit s ≡ true → IsDigit c → all is_digit (s ++ c ∷ []) ≡ true
all-concat [] c h d = ground arith
all-concat (x ∷ s) c h d = ground (arith, all-concat s c)

concat-is_nil : (s : Text) (c : ℕ) → is_nil (s ++ c ∷ []) ≡ false
concat-is_nil [] c = refl
concat-is_nil (x ∷ s) c = refl

pub record Spells (n : ℕ) (s : Text) : Type 0 where
  pub some_digit : is_nil s ≡ false
  pub only_digits : all is_digit s ≡ true
  pub same_value : value 0 s ≡ n

digits-Spells : (fuel n : ℕ) → n ≤ fuel → Spells n (digits fuel n)
unfolding digits value
digits-Spells zero n h = ground arith
digits-Spells (suc fuel) n h = elim (Bool-cases (ltb n 10)) [
  | inl small ↦ rw small (ground arith)
  | inr large ↦
      let ih = digits-Spells fuel (n / 10) (ground arith) in
      rw large (record {
        some_digit = concat-is_nil (digits fuel (n / 10)) (b'0' + n % 10);
        only_digits =
            all-concat (digits fuel (n / 10)) (b'0' + n % 10) ih.only_digits (omega arith);
        same_value = value-concat 0 (n % 10) (digits fuel (n / 10)) ∙ omega (arith, ih.same_value);
      })
]

pub format_nat-Spells : (n : ℕ) → Spells n (format_nat n)
unfolding format_nat
format_nat-Spells n = digits-Spells n n (omega arith)

parse_magnitude-Spells :
    (bound n : ℕ) (s : Text) → Spells n s → n ≤ bound → parse_magnitude bound s ≡ some n
unfolding parse_magnitude
parse_magnitude-Spells bound n s h le = ground (arith, h.some_digit, h.only_digits, h.same_value)

parse_int-Spells : (n : ℕ) (s : Text) → Spells n s → n ≤ max_int → parse_int s ≡ some (pos n)
unfolding parse_int
parse_int-Spells n [] h le = absurd (ground (arith, h.some_digit))
parse_int-Spells n (c ∷ s) h le =
    ground (arith, h.only_digits, parse_magnitude-Spells max_int n (c ∷ s) h le)

abbrev pub InRange : ℤ → Type 0
InRange (pos n) = n ≤ max_int
InRange (negsuc n) = n ≤ max_int

-- Every `int64` is read back from its decimal print.
pub parse_int-format_int : (z : ℤ) → InRange z → parse_int (format_int z) ≡ some z
unfolding format_int
parse_int-format_int (pos n) h = parse_int-Spells n _ (format_nat-Spells n) h
parse_int-format_int (negsuc n) h =
    unfold parse_int in
    rw (parse_magnitude-Spells (max_int + 1) (suc n) _ (format_nat-Spells (suc n)) (omega arith))

parse_magnitude-le : (bound : ℕ) (s : Text) {n : ℕ} → parse_magnitude bound s ≡ some n → n ≤ bound
unfolding parse_magnitude
parse_magnitude-le bound s h = ground arith

abbrev Bounded : ℕ → Option ℕ → Type 0
Bounded bound none = Unit
Bounded bound (some n) = n ≤ bound

parse_magnitude-Bounded : (bound : ℕ) (s : Text) → Bounded bound (parse_magnitude bound s)
unfolding parse_magnitude
parse_magnitude-Bounded bound s = elim (Bool-cases (is_number s && leb (value 0 s) bound)) [
  | inl e ↦ rw e (ground arith)
  | inr e ↦ rw e tt
]

negate-InRange : (o : Option ℕ) {z : ℤ} → Bounded (max_int + 1) o → negate o ≡ some z → InRange z
negate-InRange none b h = cc
negate-InRange (some zero) b h = ground arith
negate-InRange (some (suc n)) b h = ground arith

plain-InRange : (o : Option ℕ) {z : ℤ} → Bounded max_int o → plain o ≡ some z → InRange z
plain-InRange none b h = cc
plain-InRange (some n) b h = ground arith

-- What is read fits 64 bits.
pub parse_int-InRange : (s : Text) {z : ℤ} → parse_int s ≡ some z → InRange z
unfolding parse_int
parse_int-InRange [] h = cc
parse_int-InRange (c ∷ s) h = elim (Bool-cases (c == b'-')) [
  | inl minus ↦
      negate-InRange _ (parse_magnitude-Bounded (max_int + 1) s) (rw (minus, parse_int) at h)
  | inr signed ↦ elim (Bool-cases (c == b'+')) [
    | inl plus ↦
        plain-InRange _ (parse_magnitude-Bounded max_int s) (rw (signed, plus, parse_int) at h)
    | inr unsigned ↦
        plain-InRange _ (parse_magnitude-Bounded max_int (c ∷ s))
          (rw (signed, unsigned, parse_int) at h)
  ]
]
