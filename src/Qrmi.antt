-- ===== src/Qrmi.antt =====
-- src/internal/qrmi/qrmi_real.go: the C library libqrmi as a parameter, the history of its calls, and
-- the memory that these allocate and free. An address is a number; a null pointer is `none`.
pub mod Binding
pub mod Environments
pub mod Memory
pub mod Stub
pub mod Tokens
use qpu_resource.Prelude.{
  ℕ, ◌-◌, ◌%◌, ◌^◌, Bool, true, false, not, ◌&&◌, List, [], ◌∷◌, Option, none, some, Text, ◌==◌,
  if◌then◌else◌,
}
use qpu_resource.Prelude.Int.{ℤ, pos, negsuc}

-- One call, with its arguments and its reply. A text that C returns comes with its address.
pub data Call : Type 0 where
  c_string : Text → ℕ → Call
  free : ℕ → Call
  config_load : ℕ → Option ℕ → Call
  config_free : ℕ → Call
  resource_def_get : ℕ → ℕ → Option ℕ → Call
  resource_def_free : ℕ → Call
  resource_type_to_str : ℕ → Option (ℕ × Text) → Call
  string_free : ℕ → Call
  resource_new : ℕ → ℕ → Option ℕ → Call
  resource_free : ℕ → Call
  resource_is_accessible : ℕ → Bool × Bool → Call
  resource_acquire : ℕ → Bool × Option (ℕ × Text) → Call
  resource_release : ℕ → ℕ → Bool → Call
  get_last_error : Option Text → Call

-- The newest call comes first.
abbrev pub History : Type 0
History = List Call

-- `QrmiKeyValue`.
pub record KeyValue : Type 0 where
  pub key : Option Text
  pub value : Option Text

-- `QrmiResourceDef`: its type, and an array of that length at the address of its variables.
pub record CDefinition : Type 0 where
  pub kind : ℕ
  pub length : ℕ
  pub variables : Option (ℕ → KeyValue)

-- What the library replies. A return code is true where it is the one of success.
pub record LibQrmi : Type 0 where
  pub string_at : History → Text → ℕ
  pub load : History → ℕ → Option ℕ
  pub get_def : History → ℕ → ℕ → Option ℕ
  pub definition : History → ℕ → CDefinition
  pub type_string : History → ℕ → Option (ℕ × Text)
  pub new : History → ℕ → ℕ → Option ℕ
  pub accessible : History → ℕ → Bool × Bool
  pub acquire : History → ℕ → Bool × Option (ℕ × Text)
  pub release : History → ℕ → ℕ → Bool
  pub last_error : History → Option Text

-- `C.QrmiResourceType(typ)`, a type of 32 bits without a sign.
unfoldable pub resource_type : ℤ → ℕ
resource_type (pos n) = n % 2 ^ 32
resource_type (negsuc n) = 2 ^ 32 - 1 - n % 2 ^ 32

-- Calls in sequence.
abbrev pub Calls {ℓ} : Type ℓ → Type ℓ
Calls A = History → A × History

module _ {A : Type 0} where
  unfoldable pub pure : A → Calls A
  pure a h = (a, h)

  -- One call: its reply, given what was called before.
  unfoldable pub call : (History → A) → (A → Call) → Calls A
  call reply entry h = (reply h, entry (reply h) ∷ h)

module _ {A B : Type 0} where
  infixl 5 ◌>>=◌ ◌>>◌
  unfoldable pub ◌>>=◌ : Calls A → (A → Calls B) → Calls B
  unfolding pure call
  ◌>>=◌ m f h = let (a, h') = m h in f a h'

  abbrev pub ◌>>◌ : Calls A → Calls B → Calls B
  m >> n = m >>= λ _. n
