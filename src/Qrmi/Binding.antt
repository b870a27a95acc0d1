-- ===== src/Qrmi/Binding.antt =====
-- src/internal/qrmi/qrmi_real.go: the functions of the binding. A receiver that is nil is `none`; a
-- handle that is closed holds no pointer.
use qpu_resource.Prelude.{
  ℕ, suc, zero, Bool, true, false, List, [], ◌∷◌, Option, none, some, Text, codes, is_nil,
  if◌then◌else◌,
}
use qpu_resource.Prelude.Int.{ℤ, pos}
use qpu_resource.Errors.{Error, errorf, Result, ok, err}
use qpu_resource.Hooks.{EnvVar}
use qpu_resource.Qrmi.{
  Call, c_string, free, config_load, config_free, resource_def_get, resource_def_free,
  resource_type_to_str, string_free, resource_new, resource_free, resource_is_accessible,
  resource_acquire, resource_release, get_last_error, KeyValue, CDefinition, LibQrmi, resource_type,
  Calls, pure, call, ◌>>=◌, ◌>>◌,
}

-- `Config`, `ResourceDef` and `Resource`: each wraps a pointer of C.
pub record Handle : Type 0 where
  pub c : Option ℕ

-- The pointer, if the receiver is not nil and not closed.
abbrev pub pointer : Option Handle → Option ℕ
pointer none = none
pointer (some r) = r.c

abbrev pub closed : Option Handle → Option Handle
closed none = none
closed (some r) = some (record r { c = none })

-- `goStringOrEmpty`.
unfoldable pub go_string_or_empty : Option Text → Text
go_string_or_empty none = []
go_string_or_empty (some s) = s

abbrev error_text : Option Text → Text
error_text none = codes "(no error message)"
error_text (some s) = s

-- A call that frees.
abbrev calling : Call → Calls (Unit {0})
calling entry = call (λ h. tt) (λ _. entry)

-- The loop over the indices below the length.
unfoldable pub entries_from : (ℕ → KeyValue) → (index more : ℕ) → List EnvVar
unfolding go_string_or_empty
entries_from variables i zero = []
entries_from variables i (suc more) =
    let rest = entries_from variables (suc i) more in
    if is_nil (go_string_or_empty (variables i).key)
    then rest
    else record {
      key = go_string_or_empty (variables i).key;
      value = go_string_or_empty (variables i).value;
    }
      ∷ rest

abbrev pub entries_of : CDefinition → Option (ℕ → KeyValue) → List EnvVar
entries_of d none = []
entries_of d (some variables) = entries_from variables 0 d.length

abbrev pub resource_closed : Error
resource_closed = errorf "qrmi: resource is closed" []

-- `qrmiGoLogCallback`: what it hands to the function that SetLogCallback has stored, if any.
unfoldable pub log_callback :
    {A : Type 0} → Option (Text → Text → Text → A) → (level target message : Option Text) → Option A
unfolding go_string_or_empty
log_callback none level target message = none
log_callback (some fn) level target message =
    some (fn (go_string_or_empty level) (go_string_or_empty target) (go_string_or_empty message))

module _ (lib : LibQrmi) where
  -- `C.CString`, with `C.free` deferred to the end of what follows.
  unfoldable pub with_c_string : {A : Type 0} → Text → (ℕ → Calls A) → Calls A
  unfolding ◌>>=◌
  with_c_string s body = do
    p ← call (λ h. lib.string_at h s) (c_string s)
    out ← body p
    calling (free p)
    pure out

  -- `lastError`.
  unfoldable pub last_error : Calls Text
  unfolding ◌>>=◌
  last_error = do text ← call lib.last_error get_last_error; pure (error_text text)

  -- `fmt.Errorf("…: %s", lastError())`, where a call has returned no pointer.
  abbrev pub or_last_error : (Text → Error) → Option ℕ → Calls (Result Handle)
  or_last_error error none = last_error >>= λ text. pure (err (error text))
  or_last_error error (some p) = pure (ok (record { c = some p }))

  unfoldable pub load_config : Text → Calls (Result Handle)
  unfolding with_c_string last_error
  load_config path = with_c_string path λ cpath. do
    cfg ← call (λ h. lib.load h cpath) (config_load cpath)
    or_last_error (λ text. errorf "qrmi_config_load(%s): %s" (path ∷ text ∷ [])) cfg

  -- `Close`: what is called, if there is something to free, and the receiver then.
  abbrev pub close : (ℕ → Call) → Option Handle → Option ℕ → Calls (Option Handle)
  close entry receiver none = pure receiver
  close entry receiver (some p) = calling (entry p) >> pure (closed receiver)

  unfoldable pub close_config : Option Handle → Calls (Option Handle)
  unfolding ◌>>=◌
  close_config receiver = close config_free receiver (pointer receiver)

  unfoldable pub close_resource_def : Option Handle → Calls (Option Handle)
  unfolding ◌>>=◌
  close_resource_def receiver = close resource_def_free receiver (pointer receiver)

  unfoldable pub close_resource : Option Handle → Calls (Option Handle)
  unfolding ◌>>=◌
  close_resource receiver = close resource_free receiver (pointer receiver)

  -- What a method does with the pointer, or its answer where there is none.
  abbrev when_open : {A : Type 0} → Option ℕ → A → (ℕ → Calls A) → Calls A
  when_open none otherwise body = pure otherwise
  when_open (some p) otherwise body = body p

  unfoldable pub resource_def : Option Handle → Text → Calls (Result Handle)
  unfolding with_c_string last_error
  resource_def receiver name =
      when_open (pointer receiver) (err (errorf "qrmi: config is closed" [])) λ c.
        with_c_string name λ cname. do
          def ← call (λ h. lib.get_def h c cname) (resource_def_get c cname)
          or_last_error (λ text. errorf "qrmi_config_resource_def_get(%s): %s" (name ∷ text ∷ []))
              def

  -- `Type`: it reads the definition's memory.
  unfoldable pub type_of : Option Handle → Calls ℤ
  unfolding pure
  type_of receiver = when_open (pointer receiver) (pos 0) λ c h. (pos (lib.definition h c).kind, h)

  abbrev pub copied : Option (ℕ × Text) → Calls Text
  copied none = pure []
  copied (some (p, text)) = calling (string_free p) >> pure text

  unfoldable pub type_string : Option Handle → Calls Text
  unfolding ◌>>=◌
  type_string receiver = when_open (pointer receiver) [] λ c h.
      let kind = (lib.definition h c).kind in
      (call (λ past. lib.type_string past kind) (resource_type_to_str kind) >>= copied) h

  -- `Environments`: nil is the empty list.
  unfoldable pub environments : Option Handle → Calls (List EnvVar)
  unfolding pure entries_from
  environments receiver =
      when_open (pointer receiver) []
        λ c h. (entries_of (lib.definition h c) (lib.definition h c).variables, h)

  unfoldable pub new_resource : Text → ℤ → Calls (Result Handle)
  unfolding with_c_string last_error resource_type
  new_resource name typ = with_c_string name λ cname. do
    r ← call (λ h. lib.new h cname (resource_type typ)) (resource_new cname (resource_type typ))
    or_last_error (λ text. errorf "qrmi_resource_new(%s): %s" (name ∷ text ∷ [])) r

  abbrev fail : {A : Type 0} → (Text → Error) → Calls (Result A)
  fail error = last_error >>= λ text. pure (err (error text))

  abbrev pub accessible_answer : Bool × Bool → Calls (Result Bool)
  accessible_answer (false, out) =
      fail (λ text. errorf "qrmi_resource_is_accessible: %s" (text ∷ []))
  accessible_answer (true, out) = pure (ok out)

  unfoldable pub is_accessible : Option Handle → Calls (Result Bool)
  unfolding ◌>>=◌ last_error
  is_accessible receiver =
      when_open (pointer receiver) (err resource_closed)
        λ c. call (λ h. lib.accessible h c) (resource_is_accessible c) >>= accessible_answer

  abbrev no_token : Calls (Result Text)
  no_token = fail (λ text. errorf "qrmi_resource_acquire: %s" (text ∷ []))

  abbrev pub token_answer : Bool × Option (ℕ × Text) → Calls (Result Text)
  token_answer (false, token) = no_token
  token_answer (true, none) = no_token
  token_answer (true, some (p, text)) = calling (string_free p) >> pure (ok text)

  unfoldable pub acquire : Option Handle → Calls (Result Text)
  unfolding ◌>>=◌ last_error
  acquire receiver =
      when_open (pointer receiver) (err resource_closed)
        λ c. call (λ h. lib.acquire h c) (resource_acquire c) >>= token_answer

  abbrev pub release_answer : Bool → Calls (Result (Unit {0}))
  release_answer true = pure (ok tt)
  release_answer false = fail (λ text. errorf "qrmi_resource_release: %s" (text ∷ []))

  unfoldable pub release : Option Handle → Text → Calls (Result (Unit {0}))
  unfolding with_c_string last_error
  release receiver token = when_open (pointer receiver) (err resource_closed) λ c.
      with_c_string token
        λ ctok. call (λ h. lib.release h c ctok) (resource_release c ctok) >>= release_answer
