-- ===== src/Qrmiocs/Grant/Forms.antt =====
-- Which backend is granted: the result is always a plain name, and every documented form of a
-- name gives that name.
use qpu_resource.Prelude.{
  ℕ, true, false, [], ◌∷◌, ◌++◌, ◌≡◌, refl, arith, Text, codes, is_nil, All, All-append, inl, inr,
  Bool-cases, ◌==◌, has_char,
}
use mathlib.Core.Path.{subst}
use qpu_resource.Strings.{cut, contains_any}
use qpu_resource.Strings.Split.{
  Lacks, cut-Lacks, cut-Lacks_not_found, contains_any-All, All-contains_any,
}
use qpu_resource.Strings.Trim.{
  HeadKept, LastKept, trim_func_kept, trim_func-surrounded, trim_func-All, trim_func-eq_self,
  LastKept-append,
}
use qpu_resource.Errors.{ok}
use qpu_resource.Qrmiocs.Grant.{trimmed, trim, after_equals, parse_granted_backend}

-- A plain backend name: not empty, no parenthesis, comma or ASCII blank in it, and nothing at its
-- ends that is trimmed.
pub record IsBackend (v : Text) : Type 0 where
  pub name_some : is_nil v ≡ false
  pub no_parens : contains_any (codes "()") v ≡ false
  pub one_token : contains_any (codes ", \t\r\n") v ≡ false
  pub head_kept : HeadKept trimmed v
  pub last_kept : LastKept trimmed v

trim_kept : (s : Text) → HeadKept trimmed (trim s) × LastKept trimmed (trim s)
unfolding trim
trim_kept s = trim_func_kept trimmed s

-- `cut` takes only characters away.
cut-All {ℓ} : (Q : ℕ → Type ℓ) (sep : ℕ) (s : Text) → All Q s → All Q (cut sep s).after
unfolding cut
cut-All Q sep [] h = tt
cut-All Q sep (c ∷ s) (q, h) = elim (Bool-cases (c == sep)) [
  | inl e ↦ rw e h
  | inr e ↦ rw e (cut-All Q sep s h)
]

module _ (v : Text) where
  after_equals-kept :
      HeadKept trimmed v
      → LastKept trimmed v
      → HeadKept trimmed (after_equals v) × LastKept trimmed (after_equals v)
  unfolding after_equals
  after_equals-kept h l = elim (Bool-cases (cut b'=' v).found) [
    | inl found ↦ rw found (trim_kept (cut b'=' v).after)
    | inr absent ↦ rw absent (h, l)
  ]

  after_equals-All {ℓ} : (Q : ℕ → Type ℓ) → All Q v → All Q (after_equals v)
  unfolding after_equals trim
  after_equals-All Q h = elim (Bool-cases (cut b'=' v).found) [
    | inl found ↦ rw found (trim_func-All trimmed Q _ (cut-All Q b'=' v h))
    | inr absent ↦ rw absent h
  ]

-- The four checks, and the value that passes them.
granted_inv :
    (raw : Text) {v : Text}
    → parse_granted_backend raw ≡ ok v
    → (contains_any (codes "()") (trim raw) ≡ false)
      × (is_nil (after_equals (trim raw)) ≡ false)
      × (contains_any (codes ", \t\r\n") (after_equals (trim raw)) ≡ false)
      × (after_equals (trim raw) ≡ v)
unfolding parse_granted_backend
granted_inv raw h = ground arith

-- Whatever the scheduler's value, what is read from an accepted one is a plain backend name.
pub parse_granted_backend-IsBackend :
    (raw : Text) {v : Text} → parse_granted_backend raw ≡ ok v → IsBackend v
parse_granted_backend-IsBackend raw h =
    let (plain, given, single, value) = granted_inv raw h in
    let kept = trim_kept raw in
    let kept' = after_equals-kept (trim raw) kept.0 kept.1 in
    subst IsBackend value (record {
      name_some = given;
      no_parens = All-contains_any (codes "()") _ (
          after_equals-All (trim raw) (λ c. has_char c (codes "()") ≡ false)
            (contains_any-All (codes "()") (trim raw) plain));
      one_token = single;
      head_kept = kept'.0;
      last_kept = kept'.1;
    })

-- The checks pass where the trimmed text is plain and what follows its `=` is a backend name.
accepts :
    (raw v w : Text)
    → trim raw ≡ w
    → is_nil w ≡ false
    → contains_any (codes "()") w ≡ false
    → after_equals w ≡ v
    → IsBackend v
    → parse_granted_backend raw ≡ ok v
unfolding parse_granted_backend
accepts raw v w t n p a b = rw (t, n, p) (rw (a, b.name_some, b.one_token))

after_equals-Lacks : (v : Text) → Lacks b'=' v → after_equals v ≡ v
unfolding after_equals
after_equals-Lacks v h = rw (cut-Lacks_not_found b'=' v h)

module _ (l v r : Text) (left : All (λ c. trimmed c ≡ true) l)
    (right : All (λ c. trimmed c ≡ true) r) (b : IsBackend v) where
  -- A plain backend name without `=`, with any brackets, braces, separators and blanks that `trim`
  -- takes away on both sides, as `[EMU_FREE]`, is read as that name.
  pub parse_granted_backend-surrounded : Lacks b'=' v → parse_granted_backend (l ++ (v ++ r)) ≡ ok v
  unfolding trim
  parse_granted_backend-surrounded h =
      accepts _ v v
        (trim_func-surrounded trimmed l v r left right b.name_some b.head_kept b.last_kept)
        b.name_some b.no_parens (after_equals-Lacks v h) b

  named_some : (key : Text) → is_nil key ≡ false → is_nil (key ++ (b'=' ∷ v)) ≡ false
  named_some [] e = cc
  named_some (c ∷ key) e = refl

  named-HeadKept :
      (key : Text)
      → is_nil key ≡ false
      → HeadKept trimmed key
      → HeadKept trimmed (key ++ (b'=' ∷ v))
  named-HeadKept [] e h = absurd (cc e)
  named-HeadKept (c ∷ key) e h = h

  LastKept-equals : (w : Text) → LastKept trimmed w → LastKept trimmed (b'=' ∷ w)
  unfolding trimmed
  LastKept-equals [] h = refl
  LastKept-equals (c ∷ w) h = h

  named_no_parens :
      (key : Text)
      → contains_any (codes "()") key ≡ false
      → contains_any (codes "()") (key ++ (b'=' ∷ v)) ≡ false
  unfolding contains_any
  named_no_parens key e = All-contains_any (codes "()") _ (
      All-append _ key (b'=' ∷ v) (contains_any-All (codes "()") key e)
        (refl, contains_any-All (codes "()") v b.no_parens))

  -- A named value, as `qpu=EMU_FREE`, is read as the value, with what `trim` takes away on both
  -- sides; name and value are plain, the name has no `=`, and the value may hold one.
  pub parse_granted_backend-named :
      (key : Text)
      → IsBackend key
      → Lacks b'=' key
      → parse_granted_backend (l ++ ((key ++ (b'=' ∷ v)) ++ r)) ≡ ok v
  unfolding trim after_equals
  parse_granted_backend-named key k h =
      accepts _ v (key ++ (b'=' ∷ v))
        (trim_func-surrounded trimmed l (key ++ (b'=' ∷ v)) r left right
          (named_some key k.name_some) (named-HeadKept key k.name_some k.head_kept)
          (LastKept-append trimmed key b'=' v (LastKept-equals v b.last_kept)))
        (named_some key k.name_some) (named_no_parens key k.no_parens)
        (rw (cut-Lacks b'=' key v h) (trim_func-eq_self trimmed v b.head_kept b.last_kept)) b
