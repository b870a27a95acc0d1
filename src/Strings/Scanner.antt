-- ===== src/Strings/Scanner.antt =====
-- `bufio.Scanner` over lines. A line whose bytes do not fit the buffer ends the scan with an
-- error; a read error comes after the lines that were read before it.
use qpu_resource.Prelude.{ℕ, List, [], ◌∷◌, Option, some, Text, leb, ◌==◌, if◌then◌else◌, ◌^◌, ◌*◌}
use qpu_resource.Errors.{Error, errorf}
use qpu_resource.Strings.{byte_size}

pub record Scan : Type 0 where
  pub lines : List Text
  pub error : Option Error

abbrev pub too_long : Error
too_long = errorf "bufio.Scanner: token too long" []

-- `bufio.MaxScanTokenSize`.
abbrev pub max_token_size : ℕ
max_token_size = 64 * 2 ^ 10

abbrev pub push_line : ℕ → List Text → List Text
push_line c [] = (c ∷ []) ∷ []
push_line c (l ∷ ls) = (c ∷ l) ∷ ls

-- The lines without their newlines; nothing follows a newline at the end.
unfoldable pub lines_of : Text → List Text
lines_of [] = []
lines_of (c ∷ s) = let rest = lines_of s in if c == b'\n' then [] ∷ rest else push_line c rest

-- One carriage return at the end of a line is dropped.
unfoldable pub drop_cr : Text → Text
drop_cr [] = []
drop_cr (c ∷ s) =
    let rest = drop_cr s in elim s [ [] ↦ if c == b'\r' then [] else c ∷ [] | x ∷ r ↦ c ∷ rest ]

abbrev keep_line : Text → Scan → Scan
keep_line l r = record r { lines = l ∷ r.lines }

unfoldable pub scan_tokens : ℕ → Option Error → List Text → Scan
unfolding drop_cr
scan_tokens limit read_error [] = record { lines = []; error = read_error }
scan_tokens limit read_error (l ∷ ls) =
    let rest = scan_tokens limit read_error ls in
    if leb limit (byte_size l)
    then record { lines = []; error = some too_long }
    else keep_line (drop_cr l) rest

-- The tokens that `Scan` returns with a buffer of `limit` bytes, and what `Err` returns then.
unfoldable pub scan : ℕ → Option Error → Text → Scan
unfolding lines_of scan_tokens byte_size
scan limit read_error s = scan_tokens limit read_error (lines_of s)
