-- ===== src/FilePath.antt =====
-- What the program uses of Go's `path/filepath` on Unix. `Clean` works on the elements between
-- slashes; `EvalSymlinks` asks the file system and is a parameter elsewhere.
pub mod Clean
pub mod Ends
use mathlib.Core.List.{foldl, reverse}
use qpu_resource.Prelude.{
  Bool, false, ◌||◌, List, [], ◌∷◌, ◌++◌, Text, codes, ◌==◌, if◌then◌else◌, is_nil, text_eq,
  has_char, ◌≡◌, refl,
}
use qpu_resource.Strings.{split, trim_right}
use qpu_resource.Strings.Split.{join}

-- `filepath.IsAbs`.
abbrev pub is_abs : Text → Bool
is_abs [] = false
is_abs (c ∷ s) = c == b'/'

-- A `..` removes the element before it; at the root it is dropped.
abbrev parent : Bool → List Text → List Text
parent rooted [] = if rooted then [] else codes ".." ∷ []
parent rooted (top ∷ rest) = if text_eq top (codes "..") then codes ".." ∷ top ∷ rest else rest

clean_step : Bool → List Text → Text → List Text
clean_step rooted stack element =
    if is_nil element || text_eq element (codes ".")
    then stack
    else if text_eq element (codes "..")
    then parent rooted stack
    else element ∷ stack

abbrev dot_if_nil : Text → Text
dot_if_nil [] = codes "."
dot_if_nil (c ∷ s) = c ∷ s

-- `filepath.Clean`.
unfoldable pub clean : Text → Text
unfolding clean_step split join text_eq
clean s =
    let elements = reverse (foldl (clean_step (is_abs s)) [] (split b'/' s)) in
    if is_abs s then b'/' ∷ join b'/' elements else dot_if_nil (join b'/' elements)

-- The text up to its last slash, the slash included, and what follows it.
unfoldable pub dir_part : Text → Text
unfolding has_char
dir_part [] = []
dir_part (c ∷ s) = let rest = dir_part s in if has_char b'/' (c ∷ s) then c ∷ rest else []

unfoldable pub last_part : Text → Text
unfolding has_char
last_part [] = []
last_part (c ∷ s) =
    let rest = last_part s in if has_char b'/' s then rest else if c == b'/' then s else c ∷ s

-- `filepath.Base`.
unfoldable pub base : Text → Text
unfolding trim_right last_part dir_part
base [] = codes "."
base (c ∷ s) =
    let t = trim_right (λ x. x == b'/') (c ∷ s) in if is_nil t then codes "/" else last_part t

-- `filepath.Dir`.
unfoldable pub dir : Text → Text
unfolding clean dir_part
dir s = clean (dir_part s)

-- `filepath.Join` of two elements.
unfoldable pub join_path : Text → Text → Text
unfolding clean
join_path [] [] = []
join_path [] b = clean b
join_path a [] = clean a
join_path a b = clean (a ++ (b'/' ∷ b))

-- `filepath.Join` of any number of elements: those before the first that is not empty are dropped.
unfoldable pub join_paths : List Text → Text
unfolding clean join
join_paths [] = []
join_paths ([] ∷ es) = join_paths es
join_paths ((c ∷ e) ∷ es) = clean (join b'/' ((c ∷ e) ∷ es))

clean_examples :
    (clean (codes "/a//b/./c/..") ≡ codes "/a/b")
    × (clean (codes "../a/../..") ≡ codes "../..")
    × (clean (codes "/../x/") ≡ codes "/x")
    × (clean [] ≡ codes ".")
    × (clean (codes "/") ≡ codes "/")
    × (base (codes "/s/active_jobs/42.1/") ≡ codes "42.1")
    × (base (codes "//") ≡ codes "/")
    × (dir (codes "/s/active_jobs/42.1") ≡ codes "/s/active_jobs")
    × (dir (codes "x") ≡ codes ".")
    × (join_path (codes "/s/") (codes "usage") ≡ codes "/s/usage")
unfolding clean base dir join_path
clean_examples = (refl, refl, refl, refl, refl, refl, refl, refl, refl, refl)
