-- ===== src/Dict.antt =====
-- Go maps from strings, in insertion order. Where the order of iteration can show, it is a parameter.
use qpu_resource.Prelude.{
  List, [], ◌∷◌, ◌≡◌, refl, arith, Option, none, some, Text, text_eq, text_eq_iff, if◌then◌else◌,
}

abbrev pub Dict {ℓ} : Type ℓ → Type ℓ
Dict V = List (Text × V)

module _ {ℓ} {V : Type ℓ} where
  unfoldable pub lookup : Text → Dict V → Option V
  lookup k [] = none
  lookup k ((j, v) ∷ d) = if text_eq j k then some v else lookup k d

  -- `m[k] = v`.
  unfoldable pub insert : Text → V → Dict V → Dict V
  insert k v [] = (k, v) ∷ []
  insert k v ((j, w) ∷ d) = if text_eq j k then (k, v) ∷ d else (j, w) ∷ insert k v d

  -- `delete(m, k)`.
  unfoldable pub erase : Text → Dict V → Dict V
  erase k [] = []
  erase k ((j, w) ∷ d) = let rest = erase k d in if text_eq j k then rest else (j, w) ∷ rest

  pub lookup-insert :
      (k j : Text) (v : V) (d : Dict V)
      → lookup j (insert k v d) ≡ (if text_eq k j then some v else lookup j d)
  unfolding lookup insert
  lookup-insert k j v [] = refl
  lookup-insert k j v ((i, w) ∷ d) =
      ground (arith, text_eq_iff k j, text_eq_iff i k, text_eq_iff i j, lookup-insert k j v d)

  pub lookup-erase :
      (k j : Text) (d : Dict V) → lookup j (erase k d) ≡ (if text_eq k j then none else lookup j d)
  unfolding lookup erase
  lookup-erase k j [] = ground arith
  lookup-erase k j ((i, w) ∷ d) =
      ground (arith, text_eq_iff k j, text_eq_iff i k, text_eq_iff i j, lookup-erase k j d)

-- `m[k]` for a map of strings: the empty string where the key is missing.
abbrev pub or_empty : Option Text → Text
or_empty none = []
or_empty (some v) = v

unfoldable pub value_of : Text → Dict Text → Text
unfolding lookup
value_of k d = or_empty (lookup k d)

pub value_of-insert :
    (k j v : Text) (d : Dict Text)
    → value_of j (insert k v d) ≡ (if text_eq k j then v else value_of j d)
unfolding value_of
value_of-insert k j v d = ground (arith, lookup-insert k j v d)

pub value_of-erase :
    (k j : Text) (d : Dict Text)
    → value_of j (erase k d) ≡ (if text_eq k j then [] else value_of j d)
unfolding value_of
value_of-erase k j d = ground (arith, lookup-erase k j d)
