-- ===== src/Qrmi/Memory/Keeping.antt =====
-- The methods of src/internal/qrmi/qrmi_real.go that leave C's memory as it was.
use qpu_resource.Prelude.{ℕ, Bool, true, false, List, ◌∷◌, ◌≡◌, refl, Option, none, some, Text}
use qpu_resource.Qrmi.{
  c_string, free, resource_type_to_str, resource_is_accessible, resource_acquire, resource_release,
  History, LibQrmi, ◌>>=◌,
}
use qpu_resource.Qrmi.Binding.{
  Handle, pointer, with_c_string, last_error, type_string, is_accessible, acquire, release, copied,
  accessible_answer, token_answer, release_answer,
}
use qpu_resource.Qrmi.Memory.{Block, resource, holds, freed, effect, owned, eq_refl, IsThere}

-- Where the library reports a failure of an acquisition it gives no text.
abbrev pub GivesNoTokenOnFailure : LibQrmi → Type 0
GivesNoTokenOnFailure lib =
    (h : History) (p : ℕ) → (lib.acquire h p).0 ≡ false → (lib.acquire h p).1 ≡ none

module _ (lib : LibQrmi) (h : History) (bs : List Block) (known : owned h ≡ some bs) where
  type_string-branch :
      (kind : ℕ) (r : Option (ℕ × Text))
      → owned (copied lib r (resource_type_to_str kind r ∷ h)).1 ≡ some bs
  unfolding owned effect freed ◌>>=◌
  type_string-branch kind none = rw known refl
  type_string-branch kind (some (p, text)) = rw (known, eq_refl p) refl

  is_accessible-branch :
      (c : ℕ) (r : Bool × Bool)
      → holds bs (resource c) ≡ true
      → owned (accessible_answer lib r (resource_is_accessible c r ∷ h)).1 ≡ some bs
  unfolding owned effect last_error ◌>>=◌
  is_accessible-branch c (true, out) there = rw (known, there) refl
  is_accessible-branch c (false, out) there = rw (known, there) refl

  acquire-branch :
      (c : ℕ) (r : Bool × Option (ℕ × Text))
      → holds bs (resource c) ≡ true
      → (r.0 ≡ false → r.1 ≡ none)
      → owned (token_answer lib r (resource_acquire c r ∷ h)).1 ≡ some bs
  unfolding owned effect freed last_error ◌>>=◌
  acquire-branch c (true, none) there contract = rw (known, there) refl
  acquire-branch c (true, some (p, text)) there contract = rw (known, there, eq_refl p) refl
  acquire-branch c (false, token) there contract = rw (known, there, contract refl) refl

  release-branch :
      (c p : ℕ) (token : Text) (r : Bool)
      → holds bs (resource c) ≡ true
      → owned (free p ∷ (release_answer lib r (resource_release c p r ∷ c_string token p ∷ h)).1)
        ≡ some bs
  unfolding owned effect holds freed last_error ◌>>=◌
  release-branch c p token true there = rw (known, there, eq_refl p, eq_refl p) refl
  release-branch c p token false there = rw (known, there, eq_refl p, eq_refl p) refl

  type_string-at : (c : Option ℕ) → owned (type_string lib (some (record { c = c })) h).1 ≡ some bs
  unfolding type_string ◌>>=◌
  type_string-at none = known
  type_string-at (some c) = type_string-branch (lib.definition h c).kind _

  type_string-keeps : (def : Option Handle) → owned (type_string lib def h).1 ≡ some bs
  unfolding type_string ◌>>=◌
  type_string-keeps none = known
  type_string-keeps (some d) = type_string-at d.c

  module _ (contract : GivesNoTokenOnFailure lib) where
    pub record KeepsMemory (receiver : Option Handle) : Type 0 where
      pub on_is_accessible : owned (is_accessible lib receiver h).1 ≡ some bs
      pub on_acquire : owned (acquire lib receiver h).1 ≡ some bs
      pub on_release : (token : Text) → owned (release lib receiver token h).1 ≡ some bs
      pub on_type_string : (def : Option Handle) → owned (type_string lib def h).1 ≡ some bs

    KeepsMemory-at : (c : Option ℕ) → IsThere resource bs c → KeepsMemory (some (record { c = c }))
    unfolding is_accessible acquire release with_c_string ◌>>=◌
    KeepsMemory-at none there = record {
      on_is_accessible = known;
      on_acquire = known;
      on_release = λ token. known;
      on_type_string = type_string-keeps;
    }
    KeepsMemory-at (some c) there = record {
      on_is_accessible = is_accessible-branch c (lib.accessible h c) there;
      on_acquire = acquire-branch c (lib.acquire h c) there (contract h c);
      on_release = λ token. release-branch c _ token _ there;
      on_type_string = type_string-keeps;
    }

    -- IsAccessible, Acquire, Release and TypeString free every text that they have made or were given
    -- and keep the rest of the memory, whatever the library replies, with a receiver that is open,
    -- closed or nil, where the library gives no token when it reports a failure.
    pub binding-KeepsMemory :
        (receiver : Option Handle) → IsThere resource bs (pointer receiver) → KeepsMemory receiver
    unfolding is_accessible acquire release ◌>>=◌
    binding-KeepsMemory none there = record {
      on_is_accessible = known;
      on_acquire = known;
      on_release = λ token. known;
      on_type_string = type_string-keeps;
    }
    binding-KeepsMemory (some r) there = KeepsMemory-at r.c there
