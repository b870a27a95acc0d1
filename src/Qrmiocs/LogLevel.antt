-- ===== src/Qrmiocs/LogLevel.antt =====
-- src/internal/qrmiocs/loglevel.go: the hooks' log level as a RUST_LOG value.
pub mod Words
use qpu_resource.Prelude.{
  List, [], ◌∷◌, Option, none, some, Text, codes, if◌then◌else◌, is_nil, contains, leb, ◌==◌,
}
use qpu_resource.Prelude.Int.{ℤ, pos, negsuc}
use qpu_resource.Strings.{trim_space, to_lower}
use qpu_resource.Decimal.{parse_int}

abbrev pub level_words : List Text
level_words = codes "error" ∷ codes "warn" ∷ codes "info" ∷ codes "debug" ∷ codes "trace" ∷ []

unfoldable pub level_of_number : ℤ → Text
level_of_number (negsuc n) = codes "error"
level_of_number (pos n) =
    if leb n 2
    then codes "error"
    else if n == 3
    then codes "info"
    else if n == 4
    then codes "debug"
    else codes "trace"

unfoldable pub level_of_word : Text → Option Text
unfolding to_lower contains
level_of_word v = if contains level_words (to_lower v) then some (to_lower v) else none

-- A number is tried before a word.
abbrev pub number_or_word : Option ℤ → Text → Option Text
number_or_word (some n) v = some (level_of_number n)
number_or_word none v = level_of_word v

unfoldable pub rust_log_from_debug : Text → Option Text
unfolding trim_space parse_int level_of_number level_of_word
rust_log_from_debug raw =
    let v = trim_space raw in if is_nil v then none else number_or_word (parse_int v) v
