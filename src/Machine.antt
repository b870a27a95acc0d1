-- ===== src/Machine.antt =====
-- What the programs ask of the machine that they run on: file status, symbolic links and accounts.
-- These answers are parameters; nothing is assumed of them.
use qpu_resource.Prelude.{ℕ, Bool, Option, Text}
use qpu_resource.Errors.{Reply}

-- `os.FileInfo`, with the owner where the system gives one.
pub record FileInfo : Type 0 where
  pub uid : Option ℕ
  pub is_dir : Bool
  pub is_regular : Bool
  pub perm : ℕ

-- `user.User`: the numeric id is a text, as in Go.
pub record Account : Type 0 where
  pub uid : Text
  pub home_dir : Text

pub record Machine : Type 0 where
  pub eval_symlinks : Text → Reply Text
  pub stat : Text → Reply FileInfo
  pub lstat : Text → Reply FileInfo
  pub effective_uid : ℕ
  pub real_uid : ℕ
  pub lookup_id : Text → Reply Account
  pub lookup_user : Text → Reply Account
