-- ===== src/Checks/Qrmi.antt =====
-- The binding of libqrmi at concrete inputs: src/internal/qrmi/qrmi_real.go.
use qpu_resource.Prelude.{
  ℕ, zero, suc, ◌<◌, true, false, List, [], ◌∷◌, ◌≡◌, ◌↔◌, refl, Option, none, some, Text, codes,
  All, arith,
}
use qpu_resource.Prelude.Int.{pos}
use qpu_resource.Errors.{ok, err}
use qpu_resource.Qrmi.{History, KeyValue, LibQrmi, ◌>>=◌}
use qpu_resource.Qrmi.Binding.{
  Handle, with_c_string, load_config, close_config, close_resource, close_resource_def,
  resource_def, new_resource, acquire, environments, resource_closed,
}
use qpu_resource.Qrmi.Memory.{Block, config, definition, resource, owned, holds, freed, effect}
use qpu_resource.Qrmi.Memory.Opening.{Opens, binding-Opens}
use qpu_resource.Qrmi.Memory.Keeping.{GivesNoTokenOnFailure, KeepsMemory, binding-KeepsMemory}
use qpu_resource.Qrmi.Environments.{SameEntries, HasKey, environments-SameEntries}
use qpu_resource.Qrmi.Tokens.{acquire_iff}

abbrev url : KeyValue
url = record { key = some (codes "URL"); value = none }

abbrev no_key : KeyValue
no_key = record { key = none; value = some (codes "v") }

-- An array of two entries, and what stands behind it.
abbrev entries : KeyValue → ℕ → KeyValue
entries behind i = elim i [ zero ↦ url | suc j ↦ elim j [ zero ↦ no_key | suc k ↦ behind ] ]

abbrev lib_with : KeyValue → LibQrmi
lib_with behind = record {
  string_at = λ h s. 1;
  load = λ h p. some 7;
  get_def = λ h c p. none;
  definition = λ h p. record { kind = 2; length = 2; variables = some (entries behind) };
  type_string = λ h kind. some (3, codes "pasqal-cloud");
  new = λ h p typ. some 8;
  accessible = λ h p. (true, false);
  acquire = λ h p. (true, some (9, codes "token"));
  release = λ h p s. false;
  last_error = λ h. none;
}

abbrev lib : LibQrmi
lib = lib_with url

abbrev past : History
past = (new_resource lib (codes "EMU") (pos 2) (load_config lib (codes "/c") []).1).1

abbrev blocks : List Block
blocks = resource 8 ∷ config 7 ∷ []

known : owned past ≡ some blocks
unfolding owned effect holds freed load_config new_resource with_c_string ◌>>=◌
known = refl

abbrev open_config : Option Handle
open_config = some (record { c = some 7 })

binding-Opens_example :
    Opens config (close_config lib) blocks (load_config lib (codes "/c") past)
    × Opens resource (close_resource lib) blocks (new_resource lib (codes "EMU") (pos 2) past)
    × Opens definition
        (close_resource_def lib)
        blocks
        (resource_def lib open_config (codes "EMU") past)
unfolding holds
binding-Opens_example =
    binding-Opens lib past blocks known (codes "/c") (codes "EMU") (pos 2) open_config refl

abbrev open_resource : Option Handle
open_resource = some (record { c = some 8 })

contract : GivesNoTokenOnFailure lib
contract h p e = absurd (cc e)

binding-KeepsMemory_example : KeepsMemory lib past blocks known contract open_resource
unfolding holds
binding-KeepsMemory_example = binding-KeepsMemory lib past blocks known contract open_resource refl

below : (i : ℕ) → i < 2 → entries url i ≡ entries no_key i
below zero h = refl
below (suc zero) h = refl
below (suc (suc k)) h = absurd (omega arith)

same_entries :
    (p : ℕ)
    → some 7 ≡ some p
    → SameEntries (lib.definition past p) ((lib_with no_key).definition past p)
same_entries p e = record { length = refl; below = below }

environments-SameEntries_example :
    (environments lib open_config past ≡ environments (lib_with no_key) open_config past)
    × ((environments lib open_config past).1 ≡ past)
    × All HasKey (environments lib open_config past).0
environments-SameEntries_example =
    environments-SameEntries lib (lib_with no_key) past open_config same_entries

acquire_iff_example :
    ((p : ℕ) (t : Text)
      → ((acquire lib (some (record { c = some p })) past).0 ≡ ok t)
        ↔ ((a : ℕ) × (lib.acquire past p ≡ (true, some (a, t)))))
    × (acquire lib (some (record { c = none })) past ≡ (err resource_closed, past))
    × (acquire lib none past ≡ (err resource_closed, past))
acquire_iff_example = acquire_iff lib past
