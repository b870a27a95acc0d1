-- ===== src/Qrmiocs/Metadata.antt =====
-- src/internal/qrmiocs/metadata.go: the file in which the prolog leaves the acquisition for the
-- epilog. The text of the file is modelled here; writing and renaming it, in Hooks.
pub mod RoundTrip
pub mod Strict
pub mod Accepted
use qpu_resource.Prelude.{
  ℕ, ◌^◌, Bool, true, false, not, ◌&&◌, ◌||◌, List, [], ◌∷◌, ◌++◌, Option, none, some, Text, codes,
  if◌then◌else◌, is_nil, ◌==◌,
}
use qpu_resource.Prelude.Int.{ℤ, pos, negsuc, is_neg}
use qpu_resource.Strings.{contains_any, split, trim_right}
use qpu_resource.Strings.Scanner.{Scan, scan}
use qpu_resource.Decimal.{format_int, parse_int}
use qpu_resource.Errors.{
  Error, errorf, wrapf, sentinel, no_record, multiple_records, Result, ok, err, ◌>>=◌, ◌>>◌, guard,
}

pub record Record : Type 0 where
  pub name : Text
  pub kind : ℤ
  pub token : Text
  pub acquired_epoch : ℤ

abbrev pub record_body : Record → Text
record_body r =
    r.name
    ++ (b'\t' ∷ (format_int r.kind ++ (b'\t' ∷ (r.token ++ (b'\t' ∷ format_int r.acquired_epoch)))))

-- `Fprintf(w, "%s\t%d\t%s\t%d\n", …)`.
abbrev pub record_line : Record → Text
record_line r = record_body r ++ b'\n' ∷ []

abbrev pub has_separator : Text → Bool
has_separator = contains_any (codes "\t\n")

abbrev pub record_error : Error
record_error = errorf "record contains tab or newline in name or token" []

-- What the loop of `WriteAtomic` writes, or the record at which it gives up.
unfoldable pub render_records : List Record → Result Text
unfolding contains_any format_int
render_records [] = ok []
render_records (r ∷ rs) = do
  guard (not (has_separator r.name || has_separator r.token)) record_error
  rest ← render_records rs
  ok (record_line r ++ rest)

abbrev pub malformed : Error
malformed = errorf "malformed metadata line" []

abbrev pub invalid_type : Error
invalid_type = errorf "invalid resource type in metadata line" []

abbrev pub invalid_epoch : Error
invalid_epoch = errorf "invalid acquisition time in metadata line" []

abbrev pub kind_or_error : Option ℤ → Result ℤ
kind_or_error none = err invalid_type
kind_or_error (some z) = if is_neg z then err invalid_type else ok z

-- `Atoi` and the test for a negative value.
unfoldable pub parse_kind : Text → Result ℤ
unfolding parse_int
parse_kind s = kind_or_error (parse_int s)

abbrev pub epoch_or_error : Option ℤ → Result ℤ
epoch_or_error none = err invalid_epoch
epoch_or_error (some z) = ok z

-- The fourth field, where there is one and it is not empty; zero else.
unfoldable pub parse_epoch : List Text → Result ℤ
unfolding parse_int
parse_epoch [] = ok (pos 0)
parse_epoch (f ∷ fs) = if is_nil f then ok (pos 0) else epoch_or_error (parse_int f)

parse_fields : List Text → Result Record
unfolding parse_kind parse_epoch
parse_fields (name ∷ type_text ∷ token ∷ rest) = do
  guard (not (is_nil name || is_nil type_text || is_nil token)) malformed
  kind ← parse_kind type_text
  epoch ← parse_epoch rest
  ok (record { name = name; kind = kind; token = token; acquired_epoch = epoch })
parse_fields _ = err malformed

unfoldable pub parse_record_line : Text → Result Record
unfolding parse_fields split
parse_record_line line = parse_fields (split b'\t' line)

abbrev pub trim_cr : Text → Text
trim_cr = trim_right (λ c. c == b'\r')

-- The end of the loop: the scanner's error comes first.
read_end : Option Error → Option Record → Result Record
read_end (some e) got = err (wrapf "read metadata: %w" [] e)
read_end none none = err (sentinel no_record)
read_end none (some r) = ok r

-- The loop over the lines; the second argument is `got`, where `have` is set.
unfoldable pub read_lines : Option Error → Option Record → List Text → Result Record
unfolding read_end parse_record_line trim_right
read_lines e got [] = read_end e got
read_lines e got (l ∷ ls) =
    let line = trim_cr l in
    let skip = read_lines e got ls in
    let take : Result Record = elim got [
      | some r ↦ err (sentinel multiple_records)
      | none ↦ do rec ← parse_record_line line; read_lines e (some rec) ls
    ] in
    if is_nil line then skip else take

abbrev pub metadata_limit : ℕ
metadata_limit = 2 ^ 20

-- `ReadStrictSingle` of a file with this text, whose reading ends with this error, if any.
unfoldable pub read_strict_single : Option Error → Text → Result Record
unfolding read_lines scan
read_strict_single read_error s =
    let r = scan metadata_limit read_error s in read_lines r.error none r.lines
