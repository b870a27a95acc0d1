-- ===== src/Flags.antt =====
-- Go's `flag` package, as far as the commands use it: flag sets with `ContinueOnError` whose values
-- are texts, Booleans and integers. Why a value is refused is left out of the error.
pub mod Numbers
use qpu_resource.Prelude.{
  Bool, true, false, ◌||◌, List, [], ◌∷◌, Option, none, some, Text, codes, ◌==◌, text_eq,
  if◌then◌else◌, is_nil, contains,
}
use qpu_resource.Strings.{cut}
use qpu_resource.Errors.{Error, errorf, Result, ok, err}

-- `strconv.ParseBool`.
abbrev true_words : List Text
true_words = codes "1" ∷ codes "t" ∷ codes "T" ∷ codes "true" ∷ codes "TRUE" ∷ codes "True" ∷ []

abbrev false_words : List Text
false_words = codes "0" ∷ codes "f" ∷ codes "F" ∷ codes "false" ∷ codes "FALSE" ∷ codes "False" ∷ []

unfoldable pub parse_bool : Text → Option Bool
unfolding contains text_eq
parse_bool s =
    if contains true_words s then some true else if contains false_words s then some false else none

-- A set of flags over the record of their values: whether a flag is there and Boolean, and what
-- its value does to the record, if it is accepted.
pub record FlagSet (F : Type 0) : Type 0 where
  pub is_bool : Text → Option Bool
  pub set : Text → Text → F → Option F

module _ {F : Type 0} (fs : FlagSet F) where
  -- What the first argument does: it ends the flags, or it is one, with the next argument or without.
  pub data Step : Type 0 where
    positional : Step
    terminator : Step
    refused : Error → Step
    used : F → Step
    used_next : F → Step

  abbrev used_or : Error → Option F → Step
  used_or e none = refused e
  used_or e (some v) = used v

  abbrev used_next_or : Error → Option F → Step
  used_next_or e none = refused e
  used_next_or e (some v) = used_next v

  abbrev invalid : Text → Text → Error
  invalid name value = errorf "invalid value %q for flag -%s: %v" (value ∷ name ∷ [])

  -- A flag that takes a value: the rest of its argument, or the next one.
  abbrev set_value : Text → Option Text → Option Text → F → Step
  set_value name (some value) next v = used_or (invalid name value) (fs.set name value v)
  set_value name none (some value) v = used_next_or (invalid name value) (fs.set name value v)
  set_value name none none v = refused (errorf "flag needs an argument: -%s" (name ∷ []))

  abbrev set_bool : Text → Option Text → F → Step
  set_bool name (some value) v =
      used_or (errorf "invalid boolean value %q for -%s: %v" (value ∷ name ∷ []))
        (fs.set name value v)
  set_bool name none v =
      used_or (errorf "invalid boolean flag %s: %v" (name ∷ [])) (fs.set name (codes "true") v)

  abbrev undefined : Text → Step
  undefined name =
      if text_eq name (codes "help") || text_eq name (codes "h")
      then refused (errorf "flag: help requested" [])
      else refused (errorf "flag provided but not defined: -%s" (name ∷ []))

  abbrev set_flag : Option Bool → Text → Option Text → Option Text → F → Step
  set_flag none name value next v = undefined name
  set_flag (some true) name value next v = set_bool name value v
  set_flag (some false) name value next v = set_value name value next v

  abbrev value_part : Text → Option Text
  value_part body = if (cut b'=' body).found then some (cut b'=' body).after else none

  -- The argument without its dashes.
  abbrev bad_name : Text → Bool
  bad_name [] = true
  bad_name (c ∷ s) = c == b'-' || c == b'='

  abbrev named : Text → Text → Option Text → F → Step
  named arg body next v =
      if bad_name body
      then refused (errorf "bad flag syntax: %s" (arg ∷ []))
      else set_flag (fs.is_bool (cut b'=' body).before) (cut b'=' body).before (value_part body)
          next v

  abbrev dashed : Text → Text → Option Text → F → Step
  dashed arg [] next v = positional
  dashed arg (d ∷ s) next v =
      if d == b'-'
      then (if is_nil s then terminator else named arg s next v)
      else named arg (d ∷ s) next v

  -- `parseOne`.
  unfoldable pub parse_one : Text → Option Text → F → Step
  unfolding cut text_eq
  parse_one [] next v = positional
  parse_one (c ∷ s) next v = if c == b'-' then dashed (c ∷ s) s next v else positional

  -- `FlagSet.Parse`: the values and the arguments that are left.
  unfoldable pub parse : F → List Text → Result (F × List Text)
  unfolding parse_one
  parse v [] = ok (v, [])
  parse v (arg ∷ []) = elim (parse_one arg none v) [
    | positional ↦ ok (v, arg ∷ [])
    | terminator ↦ ok (v, [])
    | refused e ↦ err e
    | used w ↦ ok (w, [])
    | used_next w ↦ ok (w, [])
  ]
  parse v (arg ∷ next ∷ args) = elim (parse_one arg (some next) v) [
    | positional ↦ ok (v, arg ∷ next ∷ args)
    | terminator ↦ ok (v, next ∷ args)
    | refused e ↦ err e
    | used w ↦ parse w (next ∷ args)
    | used_next w ↦ parse w args
  ]
