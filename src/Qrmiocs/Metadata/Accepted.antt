-- ===== src/Qrmiocs/Metadata/Accepted.antt =====
-- What the epilog accepts can be written again and read again.
use qpu_resource.Prelude.{
  ◌<◌, false, not, ◌||◌, List, [], ◌∷◌, ◌≡◌, refl, arith, Text, codes, is_nil, Option, none, some,
  All, inl, inr, Bool-cases, has_char, ◌≢◌,
}
use mathlib.Core.Path.{subst}
use qpu_resource.Prelude.Int.{ℤ, pos, negsuc, is_neg}
use qpu_resource.Strings.{byte_size}
use qpu_resource.Strings.Split.{Lacks, split-All, split-All-Lacks, All-contains_any}
use qpu_resource.Strings.Trim.{trim_right-All}
use qpu_resource.Strings.Lines.{is_cr, lines_of-All-Lacks, scan_tokens-All-Lacks}
use qpu_resource.Strings.Scanner.{scan}
use qpu_resource.Decimal.{parse_int}
use qpu_resource.Decimal.RoundTrip.{InRange, parse_int-InRange}
use qpu_resource.Errors.{Error, Result, ok, guard, >>=-eq-ok}
use qpu_resource.Qrmiocs.Metadata.{
  Record, record_body, trim_cr, kind_or_error, epoch_or_error, parse_kind, parse_epoch,
  parse_fields, parse_record_line, malformed, metadata_limit, read_strict_single, has_separator,
}
use qpu_resource.Qrmiocs.Metadata.RoundTrip.{IsStorable}
use qpu_resource.Qrmiocs.Metadata.Strict.{kept_lines, read_strict_single_iff}

ok_value {ℓ} : (P : ℤ → Type ℓ) {y z : ℤ} → ◌≡◌ {A = Result ℤ} (ok y) (ok z) → P y → P z
ok_value P h p = subst P (cc) p

kind_or_error-ok :
    (o : Option ℤ) {z : ℤ}
    → ((y : ℤ) → o ≡ some y → InRange y)
    → kind_or_error o ≡ ok z
    → (is_neg z ≡ false) × InRange z
kind_or_error-ok none i h = absurd (cc h)
kind_or_error-ok (some (pos n)) i h =
    ok_value (λ z. (is_neg z ≡ false) × InRange z) h (refl, i (pos n) refl)
kind_or_error-ok (some (negsuc n)) i h = absurd (cc h)

epoch_or_error-ok :
    (o : Option ℤ) {z : ℤ}
    → ((y : ℤ) → o ≡ some y → InRange y)
    → epoch_or_error o ≡ ok z
    → InRange z
epoch_or_error-ok none i h = absurd (cc h)
epoch_or_error-ok (some y) i h = ok_value InRange h (i y refl)

parse_kind-ok : (s : Text) {z : ℤ} → parse_kind s ≡ ok z → (is_neg z ≡ false) × InRange z
unfolding parse_kind
parse_kind-ok s h = kind_or_error-ok (parse_int s) (λ y e. parse_int-InRange s e) h

parse_epoch-ok : (fs : List Text) {z : ℤ} → parse_epoch fs ≡ ok z → InRange z
unfolding parse_epoch
parse_epoch-ok [] h = ok_value InRange h (omega arith)
parse_epoch-ok (f ∷ fs) h = elim (Bool-cases (is_nil f)) [
  | inl blank ↦ ok_value InRange (rw (blank, parse_epoch) at h) (omega arith)
  | inr given ↦
      epoch_or_error-ok (parse_int f) (λ y e. parse_int-InRange f e) (rw (given, parse_epoch) at h)
]

plain_text : (s : Text) → Lacks b'\t' s → Lacks b'\n' s → has_separator s ≡ false
plain_text s t n = All-contains_any (codes "\t\n") s (go s t n)
  where
    go : (s : Text) → Lacks b'\t' s → Lacks b'\n' s → All (λ c. has_char c (codes "\t\n") ≡ false) s
    go [] t n = tt
    go (c ∷ s) (t, ts) (n, ns) = (unfold has_char in ground arith, go s ts ns)

-- What an accepted line says of its record.
record Accepts (r : Record) : Type 0 where
  name_some : is_nil r.name ≡ false
  name_plain : has_separator r.name ≡ false
  token_some : is_nil r.token ≡ false
  token_plain : has_separator r.token ≡ false
  kind_nonneg : is_neg r.kind ≡ false
  kind_range : InRange r.kind
  epoch_range : InRange r.acquired_epoch

parse_fields-Accepts :
    (fs : List Text) {r : Record}
    → All (Lacks b'\t') fs
    → All (Lacks b'\n') fs
    → parse_fields fs ≡ ok r
    → Accepts r
unfolding parse_fields
parse_fields-Accepts [] t n h = absurd (cc h)
parse_fields-Accepts (a ∷ []) t n h = absurd (cc h)
parse_fields-Accepts (a ∷ b ∷ []) t n h = absurd (cc h)
parse_fields-Accepts (a ∷ b ∷ c ∷ rest) (ta, (tb, (tc, _))) (na, (nb, (nc, _))) h =
    let (u, guarded, h1) =
      >>=-eq-ok (guard (not (is_nil a || is_nil b || is_nil c)) malformed) _ h in
    let (kind, parsed, h2) = >>=-eq-ok (parse_kind b) _ h1 in
    let (epoch, timed, h3) = >>=-eq-ok (parse_epoch rest) _ h2 in
    subst Accepts (cc h3) (record {
      name_some = ground (arith, guarded);
      name_plain = plain_text a ta na;
      token_some = ground (arith, guarded);
      token_plain = plain_text c tc nc;
      kind_nonneg = (parse_kind-ok b parsed).0;
      kind_range = (parse_kind-ok b parsed).1;
      epoch_range = parse_epoch-ok rest timed;
    })

kept_lines-All-Lacks : (ls : List Text) → All (Lacks b'\n') ls → All (Lacks b'\n') (kept_lines ls)
kept_lines-All-Lacks [] h = tt
kept_lines-All-Lacks (l ∷ ls) (hl, h) = elim (Bool-cases (is_nil (trim_cr l))) [
  | inl skip ↦ rw skip (kept_lines-All-Lacks ls h)
  | inr take ↦ rw take (trim_right-All is_cr (λ c. c ≢ b'\n') l hl, kept_lines-All-Lacks ls h)
]

parse_record_line-Accepts :
    (l : Text) {r : Record} → Lacks b'\n' l → parse_record_line l ≡ ok r → Accepts r
unfolding parse_record_line
parse_record_line-Accepts l n h =
    parse_fields-Accepts _ (split-All-Lacks b'\t' l) (split-All (λ c. c ≢ b'\n') b'\t' l n) h

read-Accepts :
    (e : Option Error) (s : Text) {r : Record} → read_strict_single e s ≡ ok r → Accepts r
read-Accepts e s {r} h =
    let one = (read_strict_single_iff e s r).0 h in
    let lacking : All (Lacks b'\n') (kept_lines (scan metadata_limit e s).lines) =
      kept_lines-All-Lacks _
        (unfold scan in scan_tokens-All-Lacks metadata_limit e _ (lines_of-All-Lacks s)) in
    parse_record_line-Accepts one.line (subst (All (Lacks b'\n')) one.only_line lacking).0
      one.parses

-- A record that was read, and whose line is below the limit, can be stored: no empty field, no
-- separator in a field, a type that is not negative, and numbers within 64 bits.
pub read-IsStorable :
    (e : Option Error) (s : Text) {r : Record}
    → read_strict_single e s ≡ ok r
    → byte_size (record_body r) < metadata_limit
    → IsStorable r
read-IsStorable e s h fits =
    let a = read-Accepts e s h in
    record {
      name_some = a.name_some;
      name_plain = a.name_plain;
      token_some = a.token_some;
      token_plain = a.token_plain;
      kind_nonneg = a.kind_nonneg;
      kind_range = a.kind_range;
      epoch_range = a.epoch_range;
      fits = fits;
    }
