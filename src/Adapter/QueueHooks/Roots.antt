-- ===== src/Adapter/QueueHooks/Roots.antt =====
-- The spool directories that spoolRoots of src/cmd/gridware-adapter/main.go gathers.
use qpu_resource.Prelude.{
  Bool, true, false, not, ◌&&◌, ◌||◌, List, [], ◌∷◌, ◌++◌, ◌≡◌, refl, inl, inr, arith, Text,
  text_eq_refl, text_eq_sym, contains, All, All-append, Bool-cases,
}
use qpu_resource.Strings.{trim_space}
use qpu_resource.FilePath.{is_abs, clean}
use qpu_resource.FilePath.Clean.{clean_twice}
use qpu_resource.Adapter.QueueHooks.{add_path, add_root}

-- An absolute directory in its shortest form.
abbrev pub IsRoot : Text → Type 0
IsRoot d = (is_abs d ≡ true) × (clean d ≡ d)

abbrev pub Distinct : List Text → Type 0
Distinct [] = Unit
Distinct (x ∷ xs) = (contains xs x ≡ false) × Distinct xs

pub contains-append :
    (xs ys : List Text) (a : Text) → contains (xs ++ ys) a ≡ (contains xs a || contains ys a)
unfolding contains
contains-append [] ys a = refl
contains-append (x ∷ xs) ys a = ground (arith, contains-append xs ys a)

Distinct-append :
    (xs : List Text) (a : Text) → Distinct xs → contains xs a ≡ false → Distinct (xs ++ (a ∷ []))
unfolding contains
Distinct-append [] a d n = (refl, tt)
Distinct-append (x ∷ xs) a (h, d) n = (
  ground (arith, contains-append xs (a ∷ []) x, text_eq_sym x a),
  Distinct-append xs a d (ground arith),
)

-- Directories that are roots, each once.
abbrev pub AreRoots : List Text → Type 0
AreRoots roots = All IsRoot roots × Distinct roots

module _ (roots : List Text) (path : Text) where
  abbrev is_new : Bool
  is_new = is_abs path && not (contains roots (clean path))

  add_path-AreRoots : AreRoots roots → AreRoots (add_path roots path)
  unfolding add_path
  add_path-AreRoots (are, once) = elim (Bool-cases is_new) [
    | inl e ↦ rw e (
      All-append IsRoot roots (clean path ∷ []) are (clean_twice path (ground arith), tt),
      Distinct-append roots (clean path) once (ground arith),
    )
    | inr e ↦ rw e (are, once)
  ]

  add_path-contains : (r : Text) → contains roots r ≡ true → contains (add_path roots path) r ≡ true
  unfolding add_path
  add_path-contains r h = elim (Bool-cases is_new) [
    | inl e ↦ rw e (ground (arith, contains-append roots (clean path ∷ []) r))
    | inr e ↦ rw e h
  ]

  add_path-new : is_abs path ≡ true → contains (add_path roots path) (clean path) ≡ true
  unfolding add_path contains
  add_path-new abs = elim (Bool-cases (contains roots (clean path))) [
    | inl e ↦ add_path-contains (clean path) e
    | inr e ↦
        rw (abs, e)
          (ground (
            arith,
            contains-append roots (clean path ∷ []) (clean path),
            text_eq_refl (clean path),
          ))
  ]

-- The directory is listed, if it is absolute.
abbrev pub Lists : List Text → Text → Type 0
Lists roots d = is_abs (trim_space d) ≡ true → contains roots (clean (trim_space d)) ≡ true

pub add_root-AreRoots :
    (roots : List Text) (d : Text) → AreRoots roots → AreRoots (add_root roots d)
unfolding add_root
add_root-AreRoots roots d = add_path-AreRoots roots (trim_space d)

pub add_root-contains :
    (roots : List Text) (d r : Text)
    → contains roots r ≡ true
    → contains (add_root roots d) r ≡ true
unfolding add_root
add_root-contains roots d = add_path-contains roots (trim_space d)

pub add_root-Lists : (roots : List Text) (d : Text) → Lists (add_root roots d) d
unfolding add_root
add_root-Lists roots d = add_path-new roots (trim_space d)
