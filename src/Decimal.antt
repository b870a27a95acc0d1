-- ===== src/Decimal.antt =====
-- `strconv.Itoa`, `FormatInt`, `Atoi` and `ParseInt` at base 10 on a 64-bit platform.
pub mod RoundTrip
use qpu_resource.Prelude.{
  ℕ, zero, suc, ◌+◌, ◌-◌, ◌*◌, ◌/◌, ◌%◌, ◌^◌, Bool, true, false, not, ◌&&◌, [], ◌∷◌, ◌++◌, Text,
  codes, Option, none, some, ltb, leb, ◌==◌, if◌then◌else◌, is_nil, all,
}
use qpu_resource.Prelude.Int.{ℤ, pos, negsuc}
use qpu_resource.Strings.{within}

abbrev pub is_digit : ℕ → Bool
is_digit = within b'0' b'9'

abbrev digit_text : ℕ → Text
digit_text d = (b'0' + d) ∷ []

-- The digits of a number; every step divides it by ten, so that the number itself is fuel enough.
unfoldable pub digits : ℕ → ℕ → Text
digits zero n = digit_text (n % 10)
digits (suc fuel) n =
    let more = digits fuel (n / 10) ++ digit_text (n % 10) in
    if ltb n 10 then digit_text n else more

unfoldable pub format_nat : ℕ → Text
unfolding digits
format_nat n = digits n n

-- `strconv.Itoa`, `strconv.FormatInt`, and the verb %d.
unfoldable pub format_int : ℤ → Text
unfolding format_nat
format_int (pos n) = format_nat n
format_int (negsuc n) = b'-' ∷ format_nat (suc n)

abbrev pub max_int : ℕ
max_int = 2 ^ 63 - 1

-- The number that digits spell behind `n`.
unfoldable pub value : ℕ → Text → ℕ
value n [] = n
value n (c ∷ s) = value (n * 10 + (c - b'0')) s

-- One digit or more.
unfoldable pub is_number : Text → Bool
is_number s = not (is_nil s) && all is_digit s

-- After the sign: the magnitude, if it does not exceed the bound.
unfoldable pub parse_magnitude : ℕ → Text → Option ℕ
unfolding value is_number
parse_magnitude bound s = if is_number s && leb (value 0 s) bound then some (value 0 s) else none

abbrev pub negate : Option ℕ → Option ℤ
negate none = none
negate (some zero) = some (pos 0)
negate (some (suc n)) = some (negsuc n)

abbrev pub plain : Option ℕ → Option ℤ
plain none = none
plain (some n) = some (pos n)

-- `strconv.Atoi`, `strconv.ParseInt(s, 10, 64)`: an optional sign and digits within 64 bits.
unfoldable pub parse_int : Text → Option ℤ
unfolding parse_magnitude
parse_int [] = none
parse_int (c ∷ s) =
    if c == b'-'
    then negate (parse_magnitude (max_int + 1) s)
    else if c == b'+'
    then plain (parse_magnitude max_int s)
    else plain (parse_magnitude max_int (c ∷ s))
