-- ===== src/LoadSensor/Frames.antt =====
-- The lines of a report: whatever the configuration holds, it cannot break the protocol's frame.
use qpu_resource.Prelude.{
  ◌≢◌, has_char, ℕ, Bool, true, false, List, [], ◌∷◌, ◌++◌, ◌≡◌, refl, ◌∙◌, ap, sym, arith, Text,
  codes, if◌then◌else◌, append_assoc, is_nil, inl, inr, Bool-cases, All-map, All-append,
}
use qpu_resource.Strings.Split.{Lacks, contains_any-All}
use qpu_resource.Qrmiocs.Metadata.RoundTrip.{format_int-Lacks}
use qpu_resource.Strings.Scanner.{lines_of}
use qpu_resource.Strings.Lines.{lines_of-Lacks}
use qpu_resource.Decimal.{format_int}
use qpu_resource.Availability.{AvailabilityConfig, Status}
use qpu_resource.LoadSensor.{
  Fields, valid_protocol_field, valid_or, protocol_fields, natural, report_line, report_parts,
}
use qpu_resource.LoadSensor.Protocol.{report, concat}

-- A field on its line.
abbrev pub line_body : Text → Text → Text → Text
line_body scope name value = scope ++ (b':' ∷ (name ++ (b':' ∷ value)))

valid_or-valid :
    (value default : Text)
    → valid_protocol_field default ≡ true
    → valid_protocol_field (valid_or value default) ≡ true
valid_or-valid value default h = elim (Bool-cases (valid_protocol_field value)) [
  | inl e ↦ rw e e
  | inr e ↦ rw e h
]

newline_excluded : has_char b'\n' (codes ": \t\r\n") ≡ true
unfolding has_char
newline_excluded = refl

valid-Lacks : (value : Text) → valid_protocol_field value ≡ true → Lacks b'\n' value
unfolding valid_protocol_field
valid-Lacks value h =
    All-map (λ c e. no_newline c e) value (contains_any-All (codes ": \t\r\n") value (ground arith))
  where
    no_newline : (c : ℕ) → has_char c (codes ": \t\r\n") ≡ false → c ≢ b'\n'
    no_newline c e p = cc (sym e ∙ ap (λ y. has_char y (codes ": \t\r\n")) p ∙ newline_excluded)

valid_or_none-Lacks : (value : Text) → Lacks b'\n' (valid_or value [])
valid_or_none-Lacks value = elim (Bool-cases (valid_protocol_field value)) [
  | inl e ↦ rw e (valid-Lacks value e)
  | inr e ↦ rw e tt
]

line_body-Lacks :
    (scope name value : Text)
    → Lacks b'\n' scope
    → Lacks b'\n' name
    → Lacks b'\n' value
    → Lacks b'\n' (line_body scope name value)
line_body-Lacks scope name value s n v =
    All-append _ scope _ s (omega arith, All-append _ name _ n (omega arith, v))

joined :
    (scope name value rest : Text)
    → report_line scope name value ++ rest ≡ line_body scope name value ++ (b'\n' ∷ rest)
joined scope name value rest = simp append_assoc

lines_of-report_line :
    (scope name value rest : Text)
    → Lacks b'\n' scope
    → Lacks b'\n' name
    → Lacks b'\n' value
    → lines_of (report_line scope name value ++ rest) ≡ line_body scope name value ∷ lines_of rest
lines_of-report_line scope name value rest s n v =
    ap lines_of (joined scope name value rest)
    ∙ lines_of-Lacks (line_body scope name value) rest (line_body-Lacks scope name value s n v)

module _ (c : AvailabilityConfig) (status : Status) where
  abbrev fields : Fields
  fields = protocol_fields c

  abbrev ready_digit : Text
  ready_digit = if status.ready then codes "1" else codes "0"

  scope-Lacks : Lacks b'\n' fields.scope
  unfolding protocol_fields
  scope-Lacks = valid-Lacks fields.scope (valid_or-valid c.load_sensor.scope (codes "global") refl)

  name-Lacks : Lacks b'\n' fields.resource_name
  unfolding protocol_fields
  name-Lacks =
      valid-Lacks fields.resource_name
        (valid_or-valid c.load_sensor.resource_name (codes "qpu_ready") refl)

  slots-Lacks : Lacks b'\n' fields.slots_resource_name
  unfolding protocol_fields
  slots-Lacks = valid_or_none-Lacks c.load_sensor.slots_resource_name

  -- The lines of a report.
  abbrev pub report_lines : List Text
  report_lines =
      codes "begin"
      ∷ line_body fields.scope fields.resource_name ready_digit
      ∷ (if is_nil fields.slots_resource_name
          then codes "end" ∷ []
          else line_body fields.scope fields.slots_resource_name
              (format_int (natural status.slots_available))
            ∷ codes "end"
            ∷ [])

  end_line : lines_of (codes "end\n" ++ []) ≡ codes "end" ∷ []
  unfolding lines_of
  end_line = refl

  begin_line : (rest : Text) → lines_of (codes "begin\n" ++ rest) ≡ codes "begin" ∷ lines_of rest
  unfolding lines_of
  begin_line rest = refl

  digit-Lacks : (b : Bool) → Lacks b'\n' (if b then codes "1" else codes "0")
  digit-Lacks true = (omega arith, tt)
  digit-Lacks false = (omega arith, tt)

  abbrev slots_count : Text
  slots_count = format_int (natural status.slots_available)

  abbrev last_parts : Bool → List Text
  last_parts none_set =
      if none_set
      then codes "end\n" ∷ []
      else report_line fields.scope fields.slots_resource_name slots_count ∷ codes "end\n" ∷ []

  last_lines :
      (none_set : Bool)
      → lines_of (concat (last_parts none_set)) ≡ (
          if none_set
          then codes "end" ∷ []
          else line_body fields.scope fields.slots_resource_name slots_count ∷ codes "end" ∷ [])
  last_lines true = end_line
  last_lines false =
      lines_of-report_line fields.scope fields.slots_resource_name slots_count
        (concat (codes "end\n" ∷ [])) scope-Lacks slots-Lacks
        (format_int-Lacks b'\n' (natural status.slots_available) refl)
      ∙ ap (◌∷◌ (line_body fields.scope fields.slots_resource_name slots_count)) end_line

  -- Whatever the configuration and the answer are, a report consists of exactly these lines: `begin`, the
  -- state of the resource, the slots where they are configured, and `end`.
  pub lines_of-report : lines_of (report fields status) ≡ report_lines
  unfolding report_parts
  lines_of-report =
      begin_line (
        report_line fields.scope fields.resource_name ready_digit
        ++ concat (last_parts (is_nil fields.slots_resource_name)))
      ∙ ap (◌∷◌ (codes "begin")) (
          lines_of-report_line fields.scope fields.resource_name ready_digit
            (concat (last_parts (is_nil fields.slots_resource_name))) scope-Lacks name-Lacks
            (digit-Lacks status.ready)
          ∙ ap (◌∷◌ (line_body fields.scope fields.resource_name ready_digit))
              (last_lines (is_nil fields.slots_resource_name)))
