-- ===== src/Qrmiocs/Metadata/Strict.antt =====
-- The epilog accepts exactly the files with one record, and what it accepts can be written again.
use qpu_resource.Prelude.{
  List, [], ◌∷◌, ◌≡◌, ◌↔◌, arith, Text, is_nil, Option, none, some, inl, inr, Bool-cases,
  if◌then◌else◌, ◌∙◌, ap,
}
use qpu_resource.Strings.Scanner.{scan}
use qpu_resource.Errors.{Error, ok, Result-cases}
use qpu_resource.Qrmiocs.Metadata.{
  Record, trim_cr, parse_record_line, read_lines, metadata_limit, read_strict_single,
}

-- The lines that count: without carriage returns at the end, and not empty.
abbrev pub kept_lines : List Text → List Text
kept_lines [] = []
kept_lines (l ∷ ls) =
    let rest = kept_lines ls in if is_nil (trim_cr l) then rest else trim_cr l ∷ rest

-- One line counts, it is well formed, and the scan met no error.
pub record ReadsOne (e : Option Error) (ls : List Text) (r : Record) : Type 0 where
  pub line : Text
  pub only_line : kept_lines ls ≡ line ∷ []
  pub parses : parse_record_line line ≡ ok r
  pub no_error : e ≡ none

cons_injective : {x y : Text} {xs ys : List Text} → x ∷ xs ≡ y ∷ ys → (x ≡ y) × (xs ≡ ys)
cons_injective h = (cc, cc)

read_rest :
    (e : Option Error) (r0 r : Record) (ls : List Text)
    → read_lines e (some r0) ls ≡ ok r
    → (kept_lines ls ≡ []) × (e ≡ none) × (r0 ≡ r)
unfolding read_lines
read_rest e r0 r [] h = ground arith
read_rest e r0 r (l ∷ ls) h = elim (Bool-cases (is_nil (trim_cr l))) [
  | inl skip ↦ rw skip (read_rest e r0 r ls (rw (skip, read_lines) at h))
  | inr take ↦ absurd (cc (rw (take, read_lines) at h))
]

rest_reads :
    (e : Option Error) (r : Record) (ls : List Text)
    → kept_lines ls ≡ []
    → e ≡ none
    → read_lines e (some r) ls ≡ ok r
unfolding read_lines
rest_reads e r [] k h = ground arith
rest_reads e r (l ∷ ls) k h = ground (arith, rest_reads e r ls)

read-ReadsOne :
    (e : Option Error) (r : Record) (ls : List Text) → read_lines e none ls ≡ ok r → ReadsOne e ls r
unfolding read_lines
read-ReadsOne e r [] h = absurd (ground arith)
read-ReadsOne e r (l ∷ ls) h = elim (Bool-cases (is_nil (trim_cr l))) [
  | inl skip ↦
      let ih = read-ReadsOne e r ls (rw (skip, read_lines) at h) in
      record {
        line = ih.line;
        only_line = rw skip ih.only_line;
        parses = ih.parses;
        no_error = ih.no_error;
      }
  | inr take ↦ elim (Result-cases (parse_record_line (trim_cr l))) [
    | inl (a, parsed) ↦
        let rest = read_rest e a r ls (rw (take, parsed, read_lines) at h) in
        record {
          line = trim_cr l;
          only_line = rw (take, rest.0);
          parses = parsed ∙ ap ok rest.2;
          no_error = rest.1;
        }
    | inr (x, refused) ↦ absurd (cc (rw (take, refused, read_lines) at h))
  ]
]

ReadsOne-read :
    (e : Option Error) (r : Record) (ls : List Text) → ReadsOne e ls r → read_lines e none ls ≡ ok r
unfolding read_lines
ReadsOne-read e r [] h = absurd (cc (h.only_line))
ReadsOne-read e r (l ∷ ls) h = elim (Bool-cases (is_nil (trim_cr l))) [
  | inl skip ↦ rw skip (
      ReadsOne-read e r ls (record {
        line = h.line;
        only_line = rw skip at h.only_line;
        parses = h.parses;
        no_error = h.no_error;
      }))
  | inr take ↦
      let split : (trim_cr l ≡ h.line) × (kept_lines ls ≡ []) =
        cons_injective (rw take at h.only_line) in
      rw (take, split.0, h.parses) (rest_reads e r ls split.1 h.no_error)
]

-- `ReadStrictSingle` succeeds exactly if the scan ends without error, one line counts, and that
-- line is well formed; the record is then that line's.
pub read_strict_single_iff :
    (e : Option Error) (s : Text) (r : Record)
    → let lines = scan metadata_limit e s in
      (read_strict_single e s ≡ ok r) ↔ ReadsOne lines.error lines.lines r
unfolding read_strict_single
read_strict_single_iff e s r = (read-ReadsOne _ r _, ReadsOne-read _ r _)
