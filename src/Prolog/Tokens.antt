-- ===== src/Prolog/Tokens.antt =====
-- The tokens that the prolog holds and the metadata that it stored, as the history of its calls
-- shows them.
pub mod Held
pub mod Giving
pub mod Writing
pub mod Keeping
pub mod Safety
use qpu_resource.Prelude.{
  List, [], ◌∷◌, ◌≡◌, ◌⊎◌, Option, none, some, Text, codes, text_eq, if◌then◌else◌,
}
use qpu_resource.FilePath.{join_path, dir}
use qpu_resource.Errors.{ok, done, fails}
use qpu_resource.Qrmiocs.Metadata.{Record, render_records}
use qpu_resource.Hooks.{
  System, History, created_resource, acquired, released, wrote, renamed, removed,
}
use qpu_resource.Prelude.Int.{ℤ}

abbrev remove_first : Text → List Text → List Text
remove_first t [] = []
remove_first t (u ∷ us) = let rest = remove_first t us in if text_eq t u then us else u ∷ rest

-- The tokens that libqrmi gave and whose release was not asked for.
unfoldable pub unreleased : History → List Text
unreleased [] = []
unreleased (acquired (done t) ∷ h) = t ∷ unreleased h
unreleased (released t r ∷ h) = remove_first t (unreleased h)
unreleased (_ ∷ h) = unreleased h

-- The name and the type of the resource that was last made.
unfoldable pub last_resource : History → Option (Text × ℤ)
last_resource [] = none
last_resource (created_resource name kind (done _) ∷ h) = some (name, kind)
last_resource (_ ∷ h) = last_resource h

-- The history up to the last acquisition of a token.
unfoldable pub up_to_acquired : History → History
up_to_acquired [] = []
up_to_acquired (acquired (done t) ∷ h) = acquired (done t) ∷ h
up_to_acquired (_ ∷ h) = up_to_acquired h

-- The text of a temporary file: what was last written, unless the file was removed.
unfoldable pub written : History → Text → Option Text
written [] tmp = none
written (wrote path text (done _) ∷ h) tmp =
    let before = written h tmp in if text_eq path tmp then some text else before
written (wrote path text (fails _) ∷ h) tmp =
    let before = written h tmp in if text_eq path tmp then none else before
written (removed path r ∷ h) tmp =
    let before = written h tmp in if text_eq path tmp then none else before
written (_ ∷ h) tmp = written h tmp

-- The text under a path: put in place by renaming a temporary file, and gone where the path is
-- written, renamed or, whatever the reply, removed.
unfoldable pub stored : History → Text → Option Text
unfolding written
stored [] path = none
stored (renamed tmp target (done _) ∷ h) path =
    let before = stored h path in
    if text_eq target path then written h tmp else if text_eq tmp path then none else before
stored (wrote target text r ∷ h) path =
    let before = stored h path in if text_eq target path then none else before
stored (removed target r ∷ h) path =
    let before = stored h path in if text_eq target path then none else before
stored (_ ∷ h) path = stored h path

pub record View : Type 0 where
  pub tokens : List Text
  pub resource : Option (Text × ℤ)
  pub acquired_at : History
  pub temporary : Text → Option Text
  pub metadata : Text → Option Text

unfoldable pub view : History → View
unfolding unreleased last_resource up_to_acquired written stored
view h = record {
  tokens = unreleased h;
  resource = last_resource h;
  acquired_at = up_to_acquired h;
  temporary = written h;
  metadata = stored h;
}

-- The tokens are those given.
abbrev pub Holds : List Text → View → Type 0
Holds ts v = v.tokens ≡ ts

-- And so is the resource.
abbrev pub Made : List Text → Text → ℤ → View → Type 0
Made ts name kind v = (v.tokens ≡ ts) × (v.resource ≡ some (name, kind))

-- The path of the metadata file in a spool directory.
abbrev pub metadata_in : Text → Text
metadata_in spool = join_path spool (codes "qrmi_ocs_acquired.tsv")

-- `os.CreateTemp` never makes a file of the metadata file's own name, since it puts a random text
-- between `qrmi_ocs_acquired.` and `.tsv`.
abbrev pub MakesTemporaries : System → Type 0
MakesTemporaries s =
    (h : History) (spool : Text)
    → ¬ (s.create_temp h (dir (metadata_in spool)) ≡ done (metadata_in spool))

-- One more token is held than `ts`; its record has the name and the type of the resource that was
-- made and the time at which the token was acquired; and the metadata file of a spool directory
-- holds this record alone.
pub record Kept (s : System) (ts : List Text) (v : View) : Type 0 where
  pub acquisition : Record
  pub holds : v.tokens ≡ acquisition.token ∷ ts
  pub resource : v.resource ≡ some (acquisition.name, acquisition.kind)
  pub epoch : acquisition.acquired_epoch ≡ s.now v.acquired_at
  pub spool : Text
  pub text : Text
  pub rendered : render_records (acquisition ∷ []) ≡ ok text
  pub in_place : v.metadata (metadata_in spool) ≡ some text

-- The job asked for no QPU and none was acquired, or one token is kept.
abbrev pub Served : System → List Text → View → Type 0
Served s ts v = Holds ts v ⊎ Kept s ts v
