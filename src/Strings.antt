-- ===== src/Strings.antt =====
-- What the program uses of Go's `strings` and `unicode` packages, on texts as lists of characters.
-- Case folding is written out for ASCII and for the other characters that fold onto ASCII letters.
pub mod Trim
pub mod Split
pub mod Scanner
pub mod Lines
use qpu_resource.Prelude.{
  ℕ, ◌+◌, Bool, true, false, not, ◌&&◌, ◌||◌, List, [], ◌∷◌, ◌++◌, map, Option, none, some, Text,
  codes, ltb, leb, ◌==◌, if◌then◌else◌, is_nil, all, any, has_char, text_eq,
}

abbrev pub within : ℕ → ℕ → ℕ → Bool
within lo hi c = leb lo c && leb c hi

-- `unicode.IsSpace`.
unfoldable pub is_space : ℕ → Bool
is_space c =
    within 9 13 c
    || c == 32
    || c == 0x85
    || c == 0xa0
    || c == 0x1680
    || within 0x2000 0x200a c
    || within 0x2028 0x2029 c
    || c == 0x202f
    || c == 0x205f
    || c == 0x3000

-- `strings.TrimLeftFunc`, `strings.TrimRightFunc`, `strings.TrimFunc`.
unfoldable pub trim_left : (ℕ → Bool) → Text → Text
trim_left p [] = []
trim_left p (c ∷ s) = let rest = trim_left p s in if p c then rest else c ∷ s

unfoldable pub trim_right : (ℕ → Bool) → Text → Text
trim_right p [] = []
trim_right p (c ∷ s) = let rest = trim_right p s in if p c && is_nil rest then [] else c ∷ rest

unfoldable pub trim_func : (ℕ → Bool) → Text → Text
unfolding trim_left trim_right
trim_func p s = trim_right p (trim_left p s)

-- `strings.TrimSpace`.
unfoldable pub trim_space : Text → Text
unfolding trim_func is_space
trim_space = trim_func is_space

-- `strings.Cut` at a separator of one character; without it the text is all before.
pub record Cut : Type 0 where
  pub before : Text
  pub after : Text
  pub found : Bool

abbrev keep_char : ℕ → Cut → Cut
keep_char c r = record r { before = c ∷ r.before }

unfoldable pub cut : ℕ → Text → Cut
cut sep [] = record { before = []; after = []; found = false }
cut sep (c ∷ s) =
    let rest = cut sep s in
    if c == sep then record { before = []; after = s; found = true } else keep_char c rest

-- `strings.Split` at a separator of one character.
abbrev push_char : ℕ → List Text → List Text
push_char c [] = (c ∷ []) ∷ []
push_char c (p ∷ ps) = (c ∷ p) ∷ ps

unfoldable pub split : ℕ → Text → List Text
split sep [] = [] ∷ []
split sep (c ∷ s) = let rest = split sep s in if c == sep then [] ∷ rest else push_char c rest

-- `strings.CutPrefix`: the rest, where the text starts with the prefix.
unfoldable pub cut_prefix : Text → Text → Option Text
cut_prefix [] s = some s
cut_prefix (x ∷ p) [] = none
cut_prefix (x ∷ p) (c ∷ s) = let rest = cut_prefix p s in if x == c then rest else none

abbrev pub is_some {ℓ} : {A : Type ℓ} → Option A → Bool
is_some none = false
is_some (some a) = true

-- `strings.HasPrefix`.
abbrev pub has_prefix : Text → Text → Bool
has_prefix p s = is_some (cut_prefix p s)

abbrev pub rest_or : Text → Option Text → Text
rest_or s none = s
rest_or s (some rest) = rest

-- `strings.TrimPrefix`.
abbrev pub trim_prefix : Text → Text → Text
trim_prefix p s = rest_or s (cut_prefix p s)

-- `strings.HasSuffix` for a suffix of one character.
unfoldable pub ends_with : ℕ → Text → Bool
ends_with e [] = false
ends_with e (c ∷ s) = elim s [ [] ↦ c == e | x ∷ r ↦ ends_with e s ]

-- `strings.Contains`.
unfoldable pub contains_text : Text → Text → Bool
contains_text p [] = is_nil p
contains_text p (c ∷ s) = has_prefix p (c ∷ s) || contains_text p s

-- `strings.ContainsAny`.
unfoldable pub contains_any : Text → Text → Bool
unfolding has_char
contains_any chars s = any (λ c. has_char c chars) s

-- `strings.ReplaceAll` of one character by nothing.
unfoldable pub remove_char : ℕ → Text → Text
remove_char x [] = []
remove_char x (c ∷ s) = let rest = remove_char x s in if c == x then rest else c ∷ rest

-- `strings.ToLower`. The dotted capital I and the Kelvin sign have ASCII lower cases.
unfoldable pub lower_char : ℕ → ℕ
lower_char c =
    if within b'A' b'Z' c
    then c + 32
    else if c == 0x130
    then b'i'
    else if c == 0x212a
    then b'k'
    else c

unfoldable pub to_lower : Text → Text
unfolding lower_char
to_lower = map lower_char

-- `strings.EqualFold`. The long s and the Kelvin sign fold onto ASCII letters.
unfoldable pub fold_char : ℕ → ℕ
fold_char c =
    if within b'A' b'Z' c
    then c + 32
    else if c == 0x17f
    then b's'
    else if c == 0x212a
    then b'k'
    else c

unfoldable pub equal_fold : Text → Text → Bool
unfolding fold_char
equal_fold a b = text_eq (map fold_char a) (map fold_char b)

-- The bytes that a text takes in UTF-8.
unfoldable pub char_size : ℕ → ℕ
char_size c = if ltb c 0x80 then 1 else if ltb c 0x800 then 2 else if ltb c 0x10000 then 3 else 4

unfoldable pub byte_size : Text → ℕ
unfolding char_size
byte_size [] = 0
byte_size (c ∷ s) = char_size c + byte_size s

-- `strings.Fields`: the parts between white space, none of them empty.
abbrev drop_empty : List Text → List Text
drop_empty [] = []
drop_empty ([] ∷ ps) = ps
drop_empty ((c ∷ p) ∷ ps) = (c ∷ p) ∷ ps

-- The first part is the one that is being read; it may be empty.
unfoldable pub space_parts : Text → List Text
unfolding is_space
space_parts [] = [] ∷ []
space_parts (c ∷ s) =
    let rest = space_parts s in if is_space c then [] ∷ drop_empty rest else push_char c rest

unfoldable pub fields : Text → List Text
unfolding space_parts
fields s = drop_empty (space_parts s)
