-- ===== src/Qrmi/Memory/Opening.antt =====
-- The functions of src/internal/qrmi/qrmi_real.go that give a handle, and Close.
use qpu_resource.Prelude.{ℕ, true, List, [], ◌∷◌, ◌≡◌, refl, sym, ap, Option, none, some, Text}
use qpu_resource.Prelude.Int.{ℤ}
use qpu_resource.Errors.{Error, errorf, Result, ok, err}
use qpu_resource.Qrmi.{
  Call, c_string, free, config_load, config_free, resource_def_get, resource_def_free, resource_new,
  resource_free, History, LibQrmi, Calls, resource_type, ◌>>=◌,
}
use qpu_resource.Qrmi.Binding.{
  Handle, pointer, close, with_c_string, last_error, load_config, close_config, close_resource_def,
  close_resource, resource_def, new_resource, or_last_error,
}
use qpu_resource.Qrmi.Memory.{
  Block, config, definition, resource, holds, freed, effect, owned, eq_refl, IsThere,
}

abbrev block_of : (ℕ → Block) → Option ℕ → List Block → List Block
block_of kind none bs = bs
block_of kind (some p) bs = kind p ∷ bs

-- The memory with what a result refers to.
abbrev pub opened : (ℕ → Block) → Result Handle → List Block → List Block
opened kind (err e) bs = bs
opened kind (ok r) bs = block_of kind r.c bs

-- A function that gives a handle has allocated what the handle refers to, or nothing; `Close` frees
-- just that, and a second `Close` calls nothing.
pub record Opens (kind : ℕ → Block) (close : Option Handle → Calls (Option Handle))
    (bs : List Block) (out : Result Handle × History) : Type 0 where
  pub allocates : owned out.1 ≡ some (opened kind out.0 bs)
  pub frees : (r : Handle) → out.0 ≡ ok r → owned (close (some r) out.1).1 ≡ some bs
  pub closes :
      (r : Handle)
      → out.0 ≡ ok r
      → (h : History) → close (close (some r) out.1).0 h ≡ (some (record { c = none }), h)

abbrev c_of : Result Handle → Option ℕ
c_of (ok r) = r.c
c_of (err e) = none

the_same : {p q : ℕ} → some p ≡ some q → p ≡ q
the_same e = cc e

module _ (kind : ℕ → Block) (entry : ℕ → Call)
    (frees_kind : (q : ℕ) (bs : List Block) → effect (entry q) (kind q ∷ bs) ≡ some bs)
    (lib : LibQrmi) where
  abbrev closing : Option Handle → Calls (Option Handle)
  closing receiver = close lib entry receiver (pointer receiver)

  closing_frees :
      (q : ℕ) (c : Option ℕ) (past : History) (bs : List Block)
      → c ≡ some q
      → owned past ≡ some (kind q ∷ bs)
      → owned (closing (some (record { c = c })) past).1 ≡ some bs
  unfolding owned ◌>>=◌
  closing_frees q none past bs e known = absurd (cc e)
  closing_frees q (some p) past bs e known = rw (known, the_same e) (frees_kind q bs)

  closing_again :
      (c : Option ℕ) (past h : History)
      → closing (closing (some (record { c = c })) past).0 h ≡ (some (record { c = none }), h)
  unfolding ◌>>=◌
  closing_again none past h = refl
  closing_again (some p) past h = refl

  Opens-err :
      (e : Error) (past : History) (bs : List Block)
      → owned past ≡ some bs
      → Opens kind closing bs (err e, past)
  Opens-err e past bs known = record {
    allocates = known;
    frees = λ r w. absurd (cc w);
    closes = λ r w h. absurd (cc w);
  }

  Opens-ok :
      (q : ℕ) (past : History) (bs : List Block)
      → owned past ≡ some (kind q ∷ bs)
      → Opens kind closing bs (ok (record { c = some q }), past)
  Opens-ok q past bs known = record {
    allocates = known;
    frees = λ r w. closing_frees q r.c past bs (sym (ap c_of w)) known;
    closes = λ r w h. closing_again r.c past h;
  }

frees_config : (q : ℕ) (bs : List Block) → effect (config_free q) (config q ∷ bs) ≡ some bs
unfolding effect freed
frees_config q bs = rw (eq_refl q) refl

frees_definition :
    (q : ℕ) (bs : List Block) → effect (resource_def_free q) (definition q ∷ bs) ≡ some bs
unfolding effect freed
frees_definition q bs = rw (eq_refl q) refl

frees_resource : (q : ℕ) (bs : List Block) → effect (resource_free q) (resource q ∷ bs) ≡ some bs
unfolding effect freed
frees_resource q bs = rw (eq_refl q) refl

module _ (lib : LibQrmi) (h : History) (bs : List Block) (known : owned h ≡ some bs) where
  -- What follows the call, and the end of the text that it was given.
  load_config-branch :
      (path : Text) (p : ℕ) (error : Text → Error) (r : Option ℕ)
      → let (out, past) = or_last_error lib error r (config_load p r ∷ c_string path p ∷ h) in
        Opens config (close_config lib) bs (out, free p ∷ past)
  unfolding owned effect holds freed last_error ◌>>=◌ close_config
  load_config-branch path p error none =
      Opens-err config config_free frees_config lib _ _ bs (rw (known, eq_refl p, eq_refl p) refl)
  load_config-branch path p error (some q) =
      Opens-ok config config_free frees_config lib q _ bs (rw (known, eq_refl p, eq_refl p) refl)

  new_resource-branch :
      (name : Text) (typ p : ℕ) (error : Text → Error) (r : Option ℕ)
      → let (out, past) = or_last_error lib error r (resource_new p typ r ∷ c_string name p ∷ h) in
        Opens resource (close_resource lib) bs (out, free p ∷ past)
  unfolding owned effect holds freed last_error ◌>>=◌ close_resource
  new_resource-branch name typ p error none =
      Opens-err resource resource_free frees_resource lib _ _ bs
        (rw (known, eq_refl p, eq_refl p) refl)
  new_resource-branch name typ p error (some q) =
      Opens-ok resource resource_free frees_resource lib q _ bs
        (rw (known, eq_refl p, eq_refl p) refl)

  resource_def-branch :
      (c : ℕ) (name : Text) (p : ℕ) (error : Text → Error) (r : Option ℕ)
      → holds bs (config c) ≡ true
      → let (out, past) =
          or_last_error lib error r (resource_def_get c p r ∷ c_string name p ∷ h) in
        Opens definition (close_resource_def lib) bs (out, free p ∷ past)
  unfolding owned effect holds freed last_error ◌>>=◌ close_resource_def
  resource_def-branch c name p error none there =
      Opens-err definition resource_def_free frees_definition lib _ _ bs
        (rw (known, there, eq_refl p, eq_refl p) refl)
  resource_def-branch c name p error (some q) there =
      Opens-ok definition resource_def_free frees_definition lib q _ bs
        (rw (known, there, eq_refl p, eq_refl p) refl)

  load_config-Opens : (path : Text) → Opens config (close_config lib) bs (load_config lib path h)
  unfolding load_config with_c_string ◌>>=◌
  load_config-Opens path =
      load_config-branch path _ (λ text. errorf "qrmi_config_load(%s): %s" (path ∷ text ∷ [])) _

  new_resource-Opens :
      (name : Text) (typ : ℤ) → Opens resource (close_resource lib) bs (new_resource lib name typ h)
  unfolding new_resource with_c_string ◌>>=◌
  new_resource-Opens name typ =
      new_resource-branch name (resource_type typ) _
        (λ text. errorf "qrmi_resource_new(%s): %s" (name ∷ text ∷ [])) _

  resource_def-at :
      (c : Option ℕ) (name : Text)
      → IsThere config bs c
      → Opens definition
          (close_resource_def lib)
          bs
          (resource_def lib (some (record { c = c })) name h)
  unfolding resource_def with_c_string ◌>>=◌ close_resource_def
  resource_def-at none name there =
      Opens-err definition resource_def_free frees_definition lib _ h bs known
  resource_def-at (some c) name there =
      resource_def-branch c name _
        (λ text. errorf "qrmi_config_resource_def_get(%s): %s" (name ∷ text ∷ [])) _ there

  resource_def-Opens :
      (receiver : Option Handle) (name : Text)
      → IsThere config bs (pointer receiver)
      → Opens definition (close_resource_def lib) bs (resource_def lib receiver name h)
  unfolding resource_def close_resource_def ◌>>=◌
  resource_def-Opens none name there =
      Opens-err definition resource_def_free frees_definition lib _ h bs known
  resource_def-Opens (some r) name there = resource_def-at r.c name there

  -- LoadConfig, NewResource and ResourceDef, with a handle that is open, closed or nil, allocate what
  -- the handle that they return refers to and nothing else, whatever the library replies; they use
  -- and free only memory that is there. Close frees it; a second Close calls nothing.
  pub binding-Opens :
      (path name : Text) (typ : ℤ) (receiver : Option Handle)
      → IsThere config bs (pointer receiver)
      → Opens config (close_config lib) bs (load_config lib path h)
        × Opens resource (close_resource lib) bs (new_resource lib name typ h)
        × Opens definition (close_resource_def lib) bs (resource_def lib receiver name h)
  binding-Opens path name typ receiver there =
      (load_config-Opens path, new_resource-Opens name typ, resource_def-Opens receiver name there)
