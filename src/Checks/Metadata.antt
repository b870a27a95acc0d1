-- ===== src/Checks/Metadata.antt =====
-- The texts that the hooks read, at concrete inputs: src/internal/qrmiocs/metadata.go and grant.go.
use qpu_resource.Prelude.{has_char, [], ◌∷◌, ◌≡◌, ◌↔◌, ◌<◌, refl, arith, none, Text, codes}
use qpu_resource.Strings.{byte_size}
use qpu_resource.Strings.Split.{Lacks, has_char-Lacks}
use qpu_resource.Strings.Scanner.{scan}
use qpu_resource.Decimal.{format_int}
use qpu_resource.Errors.{ok, ◌>>=◌}
use qpu_resource.Qrmiocs.Metadata.{record_body, metadata_limit, render_records, read_strict_single}
use qpu_resource.Qrmiocs.Metadata.RoundTrip.{IsStorable, read-render}
use qpu_resource.Qrmiocs.Metadata.Strict.{ReadsOne, read_strict_single_iff}
use qpu_resource.Qrmiocs.Metadata.Accepted.{read-IsStorable}
use qpu_resource.Qrmiocs.Grant.{parse_granted_backend, trimmed}
use qpu_resource.Qrmiocs.Grant.Forms.{
  IsBackend, parse_granted_backend-IsBackend, parse_granted_backend-surrounded,
  parse_granted_backend-named,
}
use qpu_resource.Checks.Values.{acquisition}

abbrev file_text : Text
file_text = codes "\nEMU\t2\ttok\t7\r\n"

reads : read_strict_single none file_text ≡ ok acquisition
unfolding read_strict_single
reads = refl

small : byte_size (record_body acquisition) < metadata_limit
unfolding byte_size format_int
small = omega arith

pub storable : IsStorable acquisition
storable = read-IsStorable none file_text reads small

read-render_example :
    (render_records (acquisition ∷ []) >>= read_strict_single none) ≡ ok acquisition
read-render_example = read-render acquisition storable

read_strict_single_iff_example :
    (read_strict_single none file_text ≡ ok acquisition)
    ↔ ReadsOne
        (scan metadata_limit none file_text).error
        (scan metadata_limit none file_text).lines
        acquisition
read_strict_single_iff_example = read_strict_single_iff none file_text acquisition

read-IsStorable_example : IsStorable acquisition
read-IsStorable_example = read-IsStorable none file_text reads small

emu_granted : parse_granted_backend (codes "[EMU]") ≡ ok (codes "EMU")
unfolding parse_granted_backend
emu_granted = refl

emu-IsBackend : IsBackend (codes "EMU")
emu-IsBackend = parse_granted_backend-IsBackend (codes "[EMU]") emu_granted

emu_plain : Lacks b'=' (codes "EMU")
unfolding has_char
emu_plain = has_char-Lacks b'=' (codes "EMU") refl

parse_granted_backend-IsBackend_example : IsBackend (codes "EMU")
parse_granted_backend-IsBackend_example =
    parse_granted_backend-IsBackend (codes "[EMU]") emu_granted

parse_granted_backend-surrounded_example :
    parse_granted_backend (codes "[ EMU ]") ≡ ok (codes "EMU")
unfolding trimmed
parse_granted_backend-surrounded_example =
    parse_granted_backend-surrounded (codes "[ ") (codes "EMU") (codes " ]") (refl, (refl, tt))
      (refl, (refl, tt)) emu-IsBackend emu_plain

parse_granted_backend-named_example : parse_granted_backend (codes "{EMU=EMU}") ≡ ok (codes "EMU")
unfolding trimmed
parse_granted_backend-named_example =
    parse_granted_backend-named (codes "{") (codes "EMU") (codes "}") (refl, tt) (refl, tt)
      emu-IsBackend (codes "EMU") emu-IsBackend emu_plain
