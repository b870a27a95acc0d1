-- ===== src/Flags/Numbers.antt =====
-- `strconv.ParseInt` at base 0 and 64 bits, which reads the values of integer flags: a sign, a prefix
-- of the base, and digits that single underscores may separate.
use qpu_resource.Prelude.{
  ℕ, ◌+◌, ◌-◌, ◌*◌, Bool, true, false, not, ◌&&◌, ◌||◌, [], ◌∷◌, Option, none, some, Text, codes,
  ◌==◌, ltb, leb, if◌then◌else◌, is_nil, all, has_char, ◌≡◌, refl,
}
use qpu_resource.Prelude.Int.{ℤ, pos, negsuc}
use qpu_resource.Strings.{within, remove_char}
use qpu_resource.Decimal.{max_int, negate, plain}

abbrev lower : ℕ → ℕ
lower c = if within b'A' b'Z' c then c + 32 else c

-- The value of a digit, and 36 for any other character.
abbrev digit_of : ℕ → ℕ
digit_of c =
    if within b'0' b'9' c
    then c - b'0'
    else if within b'a' b'z' (lower c)
    then lower c - b'a' + 10
    else 36

-- The base and the digits behind its prefix.

abbrev prefixed : Text → ℕ × Text
prefixed [] = (8, [])
prefixed (p ∷ []) = (8, p ∷ [])
prefixed (p ∷ d ∷ s) =
    if lower p == b'b'
    then (2, d ∷ s)
    else if lower p == b'o'
    then (8, d ∷ s)
    else if lower p == b'x'
    then (16, d ∷ s)
    else (8, p ∷ d ∷ s)

abbrev base_of : Text → ℕ × Text
base_of [] = (10, [])
base_of (c ∷ s) = if c == b'0' then prefixed s else (10, c ∷ s)

unfoldable pub value_in : ℕ → ℕ → Text → ℕ
value_in base n [] = n
value_in base n (c ∷ s) = value_in base (n * base + digit_of c) s

-- What `underscoreOK` has seen last: a digit, an underscore, something else.
pub data Seen : Type 0 where
  digit : Seen
  underscore : Seen
  nothing : Seen

abbrev ends_well : Seen → Bool
ends_well digit = true
ends_well underscore = false
ends_well nothing = true

abbrev after_digit : Seen → Bool
after_digit digit = true
after_digit underscore = false
after_digit nothing = false

underscores_from : Bool → Seen → Text → Bool
underscores_from hex seen [] = ends_well seen
underscores_from hex seen (c ∷ s) =
    let on_digit = underscores_from hex digit s in
    let on_underscore = underscores_from hex underscore s in
    let on_other = underscores_from hex nothing s in
    if within b'0' b'9' c || (hex && within b'a' b'f' (lower c))
    then on_digit
    else if c == b'_'
    then after_digit seen && on_underscore
    else ends_well seen && on_other

abbrev underscore_prefixed : Text → Bool
underscore_prefixed [] = underscores_from false nothing (b'0' ∷ [])
underscore_prefixed (p ∷ s) =
    if lower p == b'x'
    then underscores_from true digit s
    else if lower p == b'b' || lower p == b'o'
    then underscores_from false digit s
    else underscores_from false nothing (b'0' ∷ p ∷ s)

-- `underscoreOK`, behind the sign.
unfoldable pub underscore_ok : Text → Bool
unfolding underscores_from
underscore_ok [] = underscores_from false nothing []
underscore_ok (c ∷ s) =
    if c == b'0' then underscore_prefixed s else underscores_from false nothing (c ∷ s)

-- The magnitude behind the sign, within a bound.
unfoldable pub parse_based : ℕ → Text → Option ℕ
unfolding value_in remove_char underscore_ok has_char
parse_based bound s =
    let (base, digits) = base_of s in
    let plain_digits = remove_char b'_' digits in
    if not (is_nil s)
      && all (λ c. ltb (digit_of c) base) plain_digits
      && (not (has_char b'_' digits) || underscore_ok s)
      && leb (value_in base 0 plain_digits) bound
    then some (value_in base 0 plain_digits)
    else none

unfoldable pub parse_flag_int : Text → Option ℤ
unfolding parse_based
parse_flag_int [] = none
parse_flag_int (c ∷ s) =
    if c == b'-'
    then negate (parse_based (max_int + 1) s)
    else if c == b'+'
    then plain (parse_based max_int s)
    else plain (parse_based max_int (c ∷ s))

parses_integers :
    (parse_flag_int (codes "0") ≡ some (pos 0))
    × (parse_flag_int (codes "-12") ≡ some (negsuc 11))
    × (parse_flag_int (codes "0x1F") ≡ some (pos 31))
    × (parse_flag_int (codes "0b1_0") ≡ some (pos 2))
    × (parse_flag_int (codes "017") ≡ some (pos 15))
    × (parse_flag_int (codes "1_000") ≡ some (pos 1000))
    × (parse_flag_int (codes "1__0") ≡ none)
    × (parse_flag_int (codes "0x") ≡ none)
    × (parse_flag_int (codes "_1") ≡ none)
    × (parse_flag_int (codes "") ≡ none)
    × (parse_flag_int (codes "9223372036854775808") ≡ none)
unfolding parse_flag_int
parses_integers = (refl, refl, refl, refl, refl, refl, refl, refl, refl, refl, refl)
