-- ===== src/Qrmiocs/Metadata/RoundTrip.antt =====
-- The epilog reads back what the prolog wrote.
use qpu_resource.Prelude.{
  ℕ, ◌<◌, Bool, true, false, ◌||◌, [], ◌∷◌, ◌++◌, ◌≡◌, refl, ◌≢◌, arith, Text, codes, is_nil, All,
  All-map, all-All, sym, ap, ◌∙◌, append-nil, suc, has_char, none, ◌==◌,
}
use qpu_resource.Prelude.Int.{ℤ, pos, negsuc, is_neg}
use qpu_resource.Strings.{byte_size}
use qpu_resource.Strings.Split.{Lacks, join, split-join, join-Lacks, contains_any-All}
use qpu_resource.Strings.Trim.{LastKept, trim_right-eq_self, All-LastKept, LastKept-append}
use qpu_resource.Strings.Lines.{is_cr, scan_one_line}
use qpu_resource.Decimal.{format_int, is_digit}
use qpu_resource.Decimal.RoundTrip.{format_nat-Spells, parse_int-format_int, InRange}
use qpu_resource.Errors.{ok, ◌>>=◌}
use qpu_resource.Qrmiocs.Metadata.{
  Record, record_body, record_line, has_separator, render_records, parse_kind, parse_epoch,
  parse_record_line, metadata_limit, read_strict_single,
}

-- The records that the file can hold: the epilog accepts no empty name or token, no separator in
-- them and no negative type, and the scanner reads lines below its limit.
pub record IsStorable (r : Record) : Type 0 where
  pub name_some : is_nil r.name ≡ false
  pub name_plain : has_separator r.name ≡ false
  pub token_some : is_nil r.token ≡ false
  pub token_plain : has_separator r.token ≡ false
  pub kind_nonneg : is_neg r.kind ≡ false
  pub kind_range : InRange r.kind
  pub epoch_range : InRange r.acquired_epoch
  pub fits : byte_size (record_body r) < metadata_limit

separator-Lacks :
    (x : ℕ) (s : Text) → has_char x (codes "\t\n") ≡ true → has_separator s ≡ false → Lacks x s
separator-Lacks x s m h = All-map (λ c e. ne c e) s (contains_any-All (codes "\t\n") s h)
  where
    ne : (c : ℕ) → has_char c (codes "\t\n") ≡ false → c ≢ x
    ne c e p = cc (sym e ∙ ap (λ y. has_char y (codes "\t\n")) p ∙ m)

-- Printed numbers consist of digits and a minus sign.
abbrev pub is_numeral : ℕ → Bool
is_numeral c = is_digit c || c == b'-'

format_int-All : (z : ℤ) → All (λ c. is_numeral c ≡ true) (format_int z)
unfolding format_int
format_int-All (pos n) =
    All-map (λ c e. ground arith) _ (all-All is_digit _ (format_nat-Spells n).only_digits)
format_int-All (negsuc n) = (
  refl,
  All-map (λ c e. ground arith) _ (all-All is_digit _ (format_nat-Spells (suc n)).only_digits),
)

pub format_int-Lacks : (x : ℕ) (z : ℤ) → is_numeral x ≡ false → Lacks x (format_int z)
format_int-Lacks x z h = All-map (λ c e p. cc (sym e ∙ ap is_numeral p ∙ h)) _ (format_int-All z)

format_int-is_nil : (z : ℤ) → is_nil (format_int z) ≡ false
unfolding format_int
format_int-is_nil (pos n) = (format_nat-Spells n).some_digit
format_int-is_nil (negsuc n) = refl

append-is_nil : (s t : Text) → is_nil s ≡ false → is_nil (s ++ t) ≡ false
append-is_nil [] t e = cc
append-is_nil (c ∷ s) t e = refl

module _ (r : Record) (h : IsStorable r) where
  render-IsStorable : render_records (r ∷ []) ≡ ok (record_line r)
  unfolding render_records
  render-IsStorable = rw (h.name_plain, h.token_plain) (rw append-nil)

  fields-Lacks :
      (x : ℕ)
      → has_char x (codes "\t\n") ≡ true
      → is_numeral x ≡ false
      → All (Lacks x) (r.name ∷ format_int r.kind ∷ r.token ∷ format_int r.acquired_epoch ∷ [])
  fields-Lacks x m n = (
    separator-Lacks x r.name m h.name_plain,
    (
      format_int-Lacks x r.kind n,
      (separator-Lacks x r.token m h.token_plain, (format_int-Lacks x r.acquired_epoch n, tt)),
    ),
  )

  body-join :
      record_body r
      ≡ join b'\t' (r.name ∷ format_int r.kind ∷ r.token ∷ format_int r.acquired_epoch ∷ [])
  unfolding join
  body-join = refl

  body-Lacks : Lacks b'\n' (record_body r)
  unfolding has_char
  body-Lacks = rw body-join (join-Lacks b'\n' b'\t' _ (omega arith) (fields-Lacks b'\n' refl refl))

  body-LastKept : LastKept is_cr (record_body r)
  body-LastKept = LastKept-append is_cr r.name _ _ (
      LastKept-append is_cr (b'\t' ∷ format_int r.kind) _ _ (
        LastKept-append is_cr (b'\t' ∷ r.token) _ _ (
          All-LastKept is_cr (b'\t' ∷ format_int r.acquired_epoch)
            (refl, All-map (λ c e. ground arith) _ (format_int-All r.acquired_epoch)))))

  parse_record_line-body : parse_record_line (record_body r) ≡ ok r
  unfolding parse_record_line parse_kind parse_epoch has_char
  parse_record_line-body =
      rw (body-join, split-join b'\t' _ _ (fields-Lacks b'\t' refl refl))
        (ground (
          arith,
          h.name_some,
          h.token_some,
          format_int-is_nil r.kind,
          format_int-is_nil r.acquired_epoch,
          h.kind_nonneg,
          parse_int-format_int r.kind h.kind_range,
          parse_int-format_int r.acquired_epoch h.epoch_range,
        ))

  body-is_nil : is_nil (record_body r) ≡ false
  body-is_nil = append-is_nil r.name _ h.name_some

  -- A record that can be stored is written, and its text is read back as that record.
  pub read-render : (render_records (r ∷ []) >>= read_strict_single none) ≡ ok r
  unfolding read_strict_single
  read-render =
      rw
        (
          render-IsStorable,
          scan_one_line metadata_limit (record_body r) body-Lacks body-LastKept h.fits,
        )
        (rw (
          trim_right-eq_self is_cr (record_body r) body-LastKept,
          body-is_nil,
          parse_record_line-body,
        ))
