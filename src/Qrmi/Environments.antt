-- ===== src/Qrmi/Environments.antt =====
-- What src/internal/qrmi/qrmi_real.go reads of C's memory: the entries of a definition.
use qpu_resource.Prelude.{
  ℕ, suc, zero, ◌+◌, ◌<◌, false, ◌≡◌, refl, sym, ap, Option, none, some, is_nil, All, arith,
  Bool-cases, inl, inr,
}
use qpu_resource.Hooks.{EnvVar}
use qpu_resource.Qrmi.{History, KeyValue, CDefinition, LibQrmi}
use qpu_resource.Qrmi.Binding.{
  Handle, pointer, go_string_or_empty, entries_from, entries_of, environments,
}

-- Two arrays that agree below a length.
abbrev pub SameBelow : ℕ → Option (ℕ → KeyValue) → Option (ℕ → KeyValue) → Type 0
SameBelow n none none = Unit
SameBelow n (some v) (some w) = (i : ℕ) → i < n → v i ≡ w i
SameBelow n _ _ = ⊥

pub record SameEntries (d e : CDefinition) : Type 0 where
  pub length : d.length ≡ e.length
  pub below : SameBelow d.length d.variables e.variables

entries_from-agree :
    (v w : ℕ → KeyValue) (i more : ℕ)
    → ((j : ℕ) → j < i + more → v j ≡ w j)
    → entries_from v i more ≡ entries_from w i more
unfolding entries_from
entries_from-agree v w i zero h = refl
entries_from-agree v w i (suc more) h =
    let head = h i (omega arith) in
    let tail = entries_from-agree v w (suc i) more (λ j l. h j (omega arith)) in
    rw (head, tail) refl

abbrev pub HasKey : EnvVar → Type 0
HasKey e = is_nil e.key ≡ false

entries_from-HasKey : (v : ℕ → KeyValue) (i more : ℕ) → All HasKey (entries_from v i more)
unfolding entries_from
entries_from-HasKey v i zero = tt
entries_from-HasKey v i (suc more) = elim (Bool-cases (is_nil (go_string_or_empty (v i).key))) [
  | inl e ↦ rw e (entries_from-HasKey v (suc i) more)
  | inr e ↦ rw e (e, entries_from-HasKey v (suc i) more)
]

-- What Environments gives for two definitions that agree within their length.
entries_of-agree :
    (d e : CDefinition) (v w : Option (ℕ → KeyValue))
    → d.length ≡ e.length
    → SameBelow d.length v w
    → entries_of d v ≡ entries_of e w
entries_of-agree d e none none p h = refl
entries_of-agree d e none (some w) p h = elim h [ ]
entries_of-agree d e (some v) none p h = elim h [ ]
entries_of-agree d e (some v) (some w) p h =
    rw (sym p) (entries_from-agree v w 0 d.length (λ j l. h j (omega arith)))

entries_of-HasKey : (d : CDefinition) (v : Option (ℕ → KeyValue)) → All HasKey (entries_of d v)
entries_of-HasKey d none = tt
entries_of-HasKey d (some v) = entries_from-HasKey v 0 d.length

module _ (lib other : LibQrmi) (h : History) where
  environments-at :
      (c : Option ℕ)
      → ((p : ℕ) → c ≡ some p → SameEntries (lib.definition h p) (other.definition h p))
      → (environments lib (some (record { c = c })) h
          ≡ environments other (some (record { c = c })) h)
        × ((environments lib (some (record { c = c })) h).1 ≡ h)
        × All HasKey (environments lib (some (record { c = c })) h).0
  unfolding environments
  environments-at none same = (refl, refl, tt)
  environments-at (some p) same =
      let entries = same p refl in
      (
        ap (λ out. (out, h))
            (entries_of-agree (lib.definition h p) (other.definition h p) _ _ entries.length
              entries.below),
        refl,
        entries_of-HasKey (lib.definition h p) (lib.definition h p).variables,
      )

  -- What Environments gives depends on no entry at or beyond the array's length, it calls nothing, and
  -- no key that it gives is empty.
  pub environments-SameEntries :
      (receiver : Option Handle)
      → ((p : ℕ)
          → pointer receiver ≡ some p
          → SameEntries (lib.definition h p) (other.definition h p))
      → (environments lib receiver h ≡ environments other receiver h)
        × ((environments lib receiver h).1 ≡ h)
        × All HasKey (environments lib receiver h).0
  unfolding environments
  environments-SameEntries none same = (refl, refl, tt)
  environments-SameEntries (some r) same = environments-at r.c same
