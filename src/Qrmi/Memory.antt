-- ===== src/Qrmi/Memory.antt =====
-- The memory that src/internal/qrmi/qrmi_real.go has C allocate: a checker of the calls, and what
-- each function of the binding does to it.
pub mod Opening
pub mod Keeping
use qpu_resource.Prelude.{
  ℕ, Bool, true, false, ◌&&◌, ◌||◌, List, [], ◌∷◌, ◌≡◌, Option, none, some, Text, ◌==◌,
  if◌then◌else◌, arith,
}
use qpu_resource.Qrmi.{
  Call, c_string, free, config_load, config_free, resource_def_get, resource_def_free,
  resource_type_to_str, string_free, resource_new, resource_free, resource_is_accessible,
  resource_acquire, resource_release, get_last_error, History,
}

-- A piece of memory, by what it is freed with.
pub data Block : Type 0 where
  bytes : ℕ → Block
  qrmi_string : ℕ → Block
  config : ℕ → Block
  definition : ℕ → Block
  resource : ℕ → Block

abbrev pub same : Block → Block → Bool
same (bytes p) (bytes q) = p == q
same (qrmi_string p) (qrmi_string q) = p == q
same (config p) (config q) = p == q
same (definition p) (definition q) = p == q
same (resource p) (resource q) = p == q
same _ _ = false

unfoldable pub holds : List Block → Block → Bool
holds [] b = false
holds (c ∷ cs) b = same c b || holds cs b

abbrev put_front : Block → Option (List Block) → Option (List Block)
put_front c none = none
put_front c (some cs) = some (c ∷ cs)

-- Memory can be freed only if it is there.
unfoldable pub freed : Block → List Block → Option (List Block)
freed b [] = none
freed b (c ∷ cs) = let rest = freed b cs in if same c b then some cs else put_front c rest

abbrev allocated : (ℕ → Block) → Option ℕ → List Block → Option (List Block)
allocated kind none bs = some bs
allocated kind (some p) bs = some (kind p ∷ bs)

abbrev string_allocated : Option (ℕ × Text) → List Block → Option (List Block)
string_allocated none bs = some bs
string_allocated (some (p, text)) bs = some (qrmi_string p ∷ bs)

abbrev given : Bool → Option (List Block) → Option (List Block)
given b next = if b then next else none

-- What a call does to the memory, if all that it reads or frees is there.
unfoldable pub effect : Call → List Block → Option (List Block)
unfolding holds freed
effect (c_string s p) bs = some (bytes p ∷ bs)
effect (free p) bs = freed (bytes p) bs
effect (config_load s r) bs = given (holds bs (bytes s)) (allocated config r bs)
effect (config_free p) bs = freed (config p) bs
effect (resource_def_get c s r) bs =
    given (holds bs (config c) && holds bs (bytes s)) (allocated definition r bs)
effect (resource_def_free p) bs = freed (definition p) bs
effect (resource_type_to_str kind r) bs = string_allocated r bs
effect (string_free p) bs = freed (qrmi_string p) bs
effect (resource_new s typ r) bs = given (holds bs (bytes s)) (allocated resource r bs)
effect (resource_free p) bs = freed (resource p) bs
effect (resource_is_accessible p r) bs = given (holds bs (resource p)) (some bs)
effect (resource_acquire p (rc, token)) bs =
    given (holds bs (resource p)) (string_allocated token bs)
effect (resource_release p s r) bs = given (holds bs (resource p) && holds bs (bytes s)) (some bs)
effect (get_last_error r) bs = some bs

abbrev after : Call → Option (List Block) → Option (List Block)
after entry none = none
after entry (some bs) = effect entry bs

-- What is allocated after a history of calls, if each of them was allowed.
unfoldable pub owned : History → Option (List Block)
unfolding effect
owned [] = some []
owned (entry ∷ h) = after entry (owned h)

pub eq_refl : (n : ℕ) → (n == n) ≡ true
eq_refl n = ground arith

-- A pointer that is null, or refers to memory that is there.
abbrev pub IsThere : (ℕ → Block) → List Block → Option ℕ → Type 0
IsThere kind bs none = Unit
IsThere kind bs (some p) = holds bs (kind p) ≡ true
