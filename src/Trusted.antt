-- ===== src/Trusted.antt =====
-- The test that an executable belongs to root and that only root can write it: `trustedHook` of
-- src/cmd/qrmi-ocs-launch/main.go and `trustedExecutable` of src/cmd/qrmi-ocs-prolog-go/main.go.
use Prim.Native.Nat.{bit_and}
use qpu_resource.Prelude.{ℕ, Bool, false, ◌&&◌, [], ◌∷◌, Option, none, some, Text, ◌==◌}
use qpu_resource.FilePath.{is_abs}
use qpu_resource.Machine.{Machine, FileInfo}
use qpu_resource.Errors.{errorf, Result, ok, ◌>>=◌, ◌>>◌, guard, reply}

abbrev pub owned_by_root : Option ℕ → Bool
owned_by_root none = false
owned_by_root (some uid) = uid == 0

-- 0o022: group and others may not write.
abbrev pub only_root_writes : FileInfo → Bool
only_root_writes info = owned_by_root info.uid && info.is_regular && bit_and info.perm 0o022 == 0

module _ (m : Machine) where
  unfoldable pub trusted_hook : Text → Result Text
  trusted_hook path = do
    guard (is_abs path) (errorf "hook %s is not an absolute path" (path ∷ []))
    resolved ← reply (m.eval_symlinks path)
    info ← reply (m.stat resolved)
    guard (only_root_writes info)
        (errorf "hook %s is not a root-owned file that only root can write" (resolved ∷ []))
    ok resolved

  unfoldable pub trusted_executable : Text → Result Text
  trusted_executable path = do
    guard (is_abs path) (errorf "scheduler executable %s is not an absolute path" (path ∷ []))
    resolved ← reply (m.eval_symlinks path)
    info ← reply (m.stat resolved)
    guard (only_root_writes info)
        (errorf "scheduler executable %s is not root-owned and non-writable" (resolved ∷ []))
    ok resolved
