-- ===== src/Qrmiocs/Grant.antt =====
-- src/internal/qrmiocs/grant.go: one backend from the scheduler's resource list.
pub mod Forms
use qpu_resource.Prelude.{
  ℕ, Bool, ◌||◌, not, List, [], ◌∷◌, Text, codes, if◌then◌else◌, is_nil, has_char,
}
use qpu_resource.Strings.{is_space, trim_func, cut, Cut, contains_any}
use qpu_resource.Errors.{Result, ok, err, errorf, ◌>>=◌, ◌>>◌, guard}

abbrev pub trim_cutset : Text
trim_cutset = codes "[]{}(),;"

unfoldable pub trimmed : ℕ → Bool
unfolding is_space has_char
trimmed r = is_space r || has_char r trim_cutset

unfoldable pub trim : Text → Text
unfolding trim_func trimmed
trim = trim_func trimmed

-- The value behind the first `=`, or the whole text.
unfoldable pub after_equals : Text → Text
unfolding cut trim
after_equals v = let r = cut b'=' v in if r.found then trim r.after else v

unfoldable pub parse_granted_backend : Text → Result Text
unfolding trim after_equals contains_any
parse_granted_backend raw =
    let v = trim raw in
    do
      guard (not (is_nil v)) (errorf "granted value is empty" [])
      guard (not (contains_any (codes "()") v))
          (errorf "granted value %q contains parentheses" (raw ∷ []))
      guard (not (is_nil (after_equals v)))
          (errorf "granted value %q has no backend name" (raw ∷ []))
      guard (not (contains_any (codes ", \t\r\n") (after_equals v)))
          (errorf "granted value %q has multiple tokens" (raw ∷ []))
      ok (after_equals v)
