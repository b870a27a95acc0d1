-- ===== src/Prolog/Request.antt =====
-- What the prolog reads from the scheduler's output, of src/cmd/qrmi-ocs-prolog-go/main.go:
-- `fieldValue`, `resourceFromList`, `parseJobRequestedResource` and `parseGrantedSlots`.
use qpu_resource.Prelude.{
  Bool, false, not, ◌&&◌, ◌||◌, List, [], ◌∷◌, ◌++◌, Option, none, some, Text, codes, text_eq,
  if◌then◌else◌, is_nil, ◌==◌,
}
use qpu_resource.Prelude.Int.{ℤ, is_positive}
use qpu_resource.Strings.{trim_space, cut, split, cut_prefix, ends_with, remove_char}
use qpu_resource.Strings.Scanner.{scan, max_token_size}
use qpu_resource.Errors.{
  errorf, wrapf, sentinel, requested_resource_not_found, Result, ok, err, ◌>>=◌, ◌>>◌, guard, Reply,
  reply,
}

abbrev pub starts_blank : Text → Bool
starts_blank [] = false
starts_blank (c ∷ s) = c == b' ' || c == b'\t'

-- A field without a colon at its end must stand alone or be followed by a blank.
abbrev pub ends_field : Text → Text → Bool
ends_field field rest = ends_with b':' field || is_nil rest || starts_blank rest

-- The text behind the field, where the line starts with it.
unfoldable pub field_rest : Text → Text → Option Text
unfolding cut_prefix ends_with
field_rest field line = elim (cut_prefix field line) [
  | none ↦ none
  | some rest ↦ if ends_field field rest then some rest else none
]

-- The continuation lines.
unfoldable pub collect : Text → List Text → Text
unfolding trim_space
collect value [] = value
collect value (line ∷ ls) =
    let more = collect (value ++ trim_space line) ls in if starts_blank line then more else value

unfoldable pub find_field : Text → List Text → Text
unfolding field_rest collect
find_field field [] = []
find_field field (line ∷ ls) = elim (field_rest field line) [
  | none ↦ find_field field ls
  | some rest ↦ collect (trim_space rest) ls
]

-- `fieldValue`; an error of the scanner is not looked at.
unfoldable pub field_value : Text → Text → Text
unfolding remove_char find_field scan
field_value out field = remove_char b'\\' (find_field field (scan max_token_size none out).lines)

-- The value of one item, where it names the resource and is not empty.
unfoldable pub item_value : Text → Text → Option Text
unfolding cut trim_space text_eq
item_value name item =
    let r = cut b'=' (trim_space item) in
    if r.found && text_eq (trim_space r.before) name && not (is_nil (trim_space r.after))
    then some (trim_space r.after)
    else none

unfoldable pub first_value : Text → List Text → Option Text
unfolding item_value
first_value name [] = none
first_value name (item ∷ items) = elim (item_value name item) [
  | none ↦ first_value name items
  | some value ↦ some value
]

unfoldable pub resource_from_list : Text → Text → Option Text
unfolding first_value split
resource_from_list list name = first_value name (split b',' list)

abbrev pub first_of_lists : Option Text → Option Text → Text → Result Text
first_of_lists (some value) o name = ok value
first_of_lists none (some value) name = ok value
first_of_lists none none name =
    err (wrapf "%w: %s" (name ∷ []) (sentinel requested_resource_not_found))

-- Hard requests, and those of the master task. Soft requests are not read.
unfoldable pub parse_job_requested_resource : Text → Text → Result Text
unfolding resource_from_list field_value
parse_job_requested_resource out name =
    first_of_lists (resource_from_list (field_value out (codes "hard_resource_list:")) name)
      (resource_from_list (field_value out (codes "master_hard_resource_list:")) name) name

-- Go's float64, as far as the slot count needs it.
pub record Float64 : Type 1 where
  pub Float : Type 0
  pub parse_float : Text → Reply Float
  pub to_int : Float → ℤ
  pub of_int : ℤ → Float
  pub equal : Float → Float → Bool

abbrev pub slots_text : Text → Text
slots_text raw =
    let r = cut b'(' (trim_space raw) in if r.found then trim_space r.before else trim_space raw

module _ (fl : Float64) where
  unfoldable pub parse_granted_slots : Text → Result ℤ
  unfolding cut trim_space
  parse_granted_slots raw = do
    value ← reply (fl.parse_float (slots_text raw))
    guard (is_positive (fl.to_int value) && fl.equal (fl.of_int (fl.to_int value)) value)
        (errorf "slot count must be a positive integer" [])
    ok (fl.to_int value)
