-- ===== src/FilePath/Clean.antt =====
-- `filepath.Clean` of an absolute path is absolute, and clean.
use mathlib.Core.List.{foldl, reverse, reverse-reverse, reverse-append}
use mathlib.Core.Path.{subst}
use qpu_resource.Prelude.{
  Bool, true, false, ◌||◌, List, [], ◌∷◌, ◌++◌, ◌≡◌, refl, sym, ◌∙◌, ap, inl, inr, Text, codes,
  text_eq, is_nil, All, All-append, All-map, Bool-cases, append-nil, append_assoc,
}
use qpu_resource.Strings.{split}
use qpu_resource.Strings.Split.{Lacks, join, split-join, split-All-Lacks, split_at_sep}
use qpu_resource.FilePath.{is_abs, clean, clean_step, parent}

-- An element that stays where it is.
record IsPlain (e : Text) : Type 0 where
  given : is_nil e ≡ false
  not_dot : text_eq e (codes ".") ≡ false
  not_dots : text_eq e (codes "..") ≡ false
  no_slash : Lacks b'/' e

or_false : (a b : Bool) → (a || b) ≡ false → (a ≡ false) × (b ≡ false)
or_false false false h = (refl, refl)
or_false false true h = absurd (cc h)
or_false true b h = absurd (cc h)

parent-IsPlain : (stack : List Text) → All IsPlain stack → All IsPlain (parent true stack)
parent-IsPlain [] h = tt
parent-IsPlain (top ∷ rest) (p, h) = rw p.not_dots h

clean_step-IsPlain :
    (stack : List Text) (e : Text)
    → All IsPlain stack
    → Lacks b'/' e
    → All IsPlain (clean_step true stack e)
unfolding clean_step
clean_step-IsPlain stack e h l = elim (Bool-cases (is_nil e || text_eq e (codes "."))) [
  | inl skipped ↦ rw skipped h
  | inr kept ↦ rw kept (elim (Bool-cases (text_eq e (codes ".."))) [
    | inl up ↦ rw up (parent-IsPlain stack h)
    | inr down ↦ rw down (
        let (given, not_dot) = or_false _ _ kept in
        (record { given = given; not_dot = not_dot; not_dots = down; no_slash = l }, h))
  ])
]

foldl-IsPlain :
    (stack es : List Text)
    → All IsPlain stack
    → All (Lacks b'/') es
    → All IsPlain (foldl (clean_step true) stack es)
foldl-IsPlain stack [] h l = h
foldl-IsPlain stack (e ∷ es) h (le, l) =
    foldl-IsPlain (clean_step true stack e) es (clean_step-IsPlain stack e h le) l

plain_step : (stack : List Text) (e : Text) → IsPlain e → clean_step true stack e ≡ e ∷ stack
unfolding clean_step
plain_step stack e p = rw (p.given, p.not_dot, p.not_dots) refl

foldl-plain :
    (stack es : List Text) → All IsPlain es → foldl (clean_step true) stack es ≡ reverse es ++ stack
foldl-plain stack [] h = refl
foldl-plain stack (e ∷ es) (p, h) =
    ap (λ s. foldl (clean_step true) s es) (plain_step stack e p)
    ∙ foldl-plain (e ∷ stack) es h
    ∙ sym (append_assoc (reverse es) (e ∷ []) stack)
    ∙ ap (λ xs. xs ++ stack) (sym (reverse-append (e ∷ []) es))

All-reverse : (es : List Text) → All IsPlain es → All IsPlain (reverse es)
All-reverse [] h = tt
All-reverse (e ∷ es) (p, h) =
    subst (All IsPlain) (sym (reverse-append (e ∷ []) es))
      (All-append IsPlain (reverse es) (e ∷ []) (All-reverse es h) (p, tt))

-- The elements of a clean path.
elements : List Text → List Text
elements es = reverse (foldl (clean_step true) [] es)

plain_elements : (es : List Text) → All IsPlain es → elements es ≡ es
unfolding elements
plain_elements es h =
    ap reverse (foldl-plain [] es h ∙ append-nil (reverse es)) ∙ reverse-reverse es

elements_back : (es : List Text) → All IsPlain es → elements (split b'/' (b'/' ∷ join b'/' es)) ≡ es
unfolding elements split join clean_step
elements_back [] h = refl
elements_back (e ∷ es) h =
    ap elements (
      split_at_sep b'/' (join b'/' (e ∷ es))
      ∙ ap (◌∷◌ []) (split-join b'/' e es (All-map (λ x p. p.no_slash) (e ∷ es) h)))
    ∙ plain_elements (e ∷ es) h

clean-absolute : (s : Text) → is_abs s ≡ true → clean s ≡ b'/' ∷ join b'/' (elements (split b'/' s))
unfolding clean elements
clean-absolute s h = rw h refl

pub clean_twice :
    (s : Text) → is_abs s ≡ true → (is_abs (clean s) ≡ true) × (clean (clean s) ≡ clean s)
clean_twice s h =
    let es = elements (split b'/' s) in
    let plain : All IsPlain es =
      unfold elements in
      All-reverse (foldl (clean_step true) [] (split b'/' s))
        (foldl-IsPlain [] (split b'/' s) tt (split-All-Lacks b'/' s)) in
    (
      ap is_abs (clean-absolute s h),
      ap clean (clean-absolute s h)
          ∙ clean-absolute (b'/' ∷ join b'/' es) refl
          ∙ ap (λ xs. b'/' ∷ join b'/' xs) (elements_back es plain)
          ∙ sym (clean-absolute s h),
    )
