-- ===== src/FilePath/Ends.antt =====
-- `filepath.Join` of a directory and a name ends in the name.
use mathlib.Core.List.{foldl, foldl-append, reverse, reverse-append}
use qpu_resource.Prelude.{
  Bool, true, false, List, [], ◌∷◌, ◌++◌, ◌≡◌, refl, sym, ◌∙◌, ap, inl, inr, Text, codes, text_eq,
  is_nil, ◌==◌, Bool-cases, append_assoc,
}
use qpu_resource.Strings.{split}
use qpu_resource.Strings.Split.{join}
use qpu_resource.FilePath.{is_abs, clean, clean_step, dot_if_nil, join_path}

abbrev EndsIn : Text → Text → Type 0
EndsIn name t = (front : Text) × (t ≡ front ++ name)

join-EndsIn : (name : Text) (xs : List Text) → EndsIn name (join b'/' (xs ++ (name ∷ [])))
unfolding join
join-EndsIn name [] = ([], refl)
join-EndsIn name (x ∷ []) = (x ++ (b'/' ∷ []), sym (append_assoc x (b'/' ∷ []) name))
join-EndsIn name (x ∷ y ∷ xs) =
    let (front, e) = join-EndsIn name (y ∷ xs) in
    (x ++ (b'/' ∷ front), ap (λ t. x ++ (b'/' ∷ t)) e ∙ sym (append_assoc x (b'/' ∷ front) name))

dotted : (name front : Text) → is_nil name ≡ false → dot_if_nil (front ++ name) ≡ front ++ name
dotted [] [] h = absurd (cc h)
dotted (c ∷ name) [] h = refl
dotted name (c ∷ front) h = refl

joined :
    (a b : Text) → is_nil a ≡ false → is_nil b ≡ false → join_path a b ≡ clean (a ++ (b'/' ∷ b))
unfolding join_path
joined [] b h k = absurd (cc h)
joined (c ∷ a) [] h k = absurd (cc k)
joined (c ∷ a) (d ∷ b) h k = refl

-- A name that is one element of a path and stays where it is.
pub record IsName (name : Text) : Type 0 where
  pub given : is_nil name ≡ false
  pub not_dot : text_eq name (codes ".") ≡ false
  pub not_dots : text_eq name (codes "..") ≡ false
  pub one_element : split b'/' name ≡ name ∷ []

module _ (name : Text) (plain : IsName name) where
  -- The elements of a path that ends in the name.
  split_last :
      (a : Text)
      → (x : Text) × (xs : List Text) × (split b'/' (a ++ (b'/' ∷ name)) ≡ x ∷ (xs ++ (name ∷ [])))
  unfolding split
  split_last [] = ([], [], ap (◌∷◌ []) plain.one_element)
  split_last (c ∷ a) =
      let (x, xs, e) = split_last a in
      elim (Bool-cases (c == b'/')) [
        | inl slash ↦ ([], x ∷ xs, rw (slash, e) refl)
        | inr other ↦ (c ∷ x, xs, rw (other, e) refl)
      ]

  name_stays : (rooted : Bool) (stack : List Text) → clean_step rooted stack name ≡ name ∷ stack
  unfolding clean_step
  name_stays rooted stack = rw (plain.given, plain.not_dot, plain.not_dots) refl

  cleaned :
      (rooted : Bool) (xs : List Text)
      → reverse (foldl (clean_step rooted) [] (xs ++ (name ∷ [])))
        ≡ reverse (foldl (clean_step rooted) [] xs) ++ (name ∷ [])
  cleaned rooted xs =
      ap reverse (
        foldl-append (clean_step rooted) [] xs (name ∷ [])
        ∙ name_stays rooted (foldl (clean_step rooted) [] xs))
      ∙ reverse-append (name ∷ []) (foldl (clean_step rooted) [] xs)

  joined_elements :
      (a : Text) (rooted : Bool)
      → EndsIn name
          (join b'/' (reverse (foldl (clean_step rooted) [] (split b'/' (a ++ (b'/' ∷ name))))))
  joined_elements a rooted =
      let (x, xs, e) = split_last a in
      rw (e, cleaned rooted (x ∷ xs))
        (join-EndsIn name (reverse (foldl (clean_step rooted) [] (x ∷ xs))))

  clean-EndsIn : (a : Text) → EndsIn name (clean (a ++ (b'/' ∷ name)))
  unfolding clean
  clean-EndsIn a = elim (Bool-cases (is_abs (a ++ (b'/' ∷ name)))) [
    | inl rooted ↦ let (front, e) = joined_elements a true in (b'/' ∷ front, rw (rooted, e) refl)
    | inr relative ↦
        let (front, e) = joined_elements a false in
        (front, rw (relative, e) (dotted name front plain.given))
  ]

  pub join_path-EndsIn : (spool : Text) → is_nil spool ≡ false → EndsIn name (join_path spool name)
  join_path-EndsIn spool h = rw (joined spool name h plain.given) (clean-EndsIn spool)
