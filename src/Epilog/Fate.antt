-- ===== src/Epilog/Fate.antt =====
-- What becomes of the token and of its record in the epilog, as the history of its calls shows it.
pub mod Quiet
pub mod Release
pub mod Ending
use Prim.{⊥}
use qpu_resource.Prelude.{
  ◌||◌, ℕ, zero, suc, List, [], ◌∷◌, ◌≡◌, refl, ◌∙◌, ap, Option, none, some, Text, codes, String,
  Bool, true, false, text_eq, ◌&&◌, ◌++◌, if◌then◌else◌, ◌⊎◌, inl, inr, Bool-cases,
}
use qpu_resource.FilePath.{dir, base, join_path}
use qpu_resource.Prelude.Int.{ℤ}
use qpu_resource.Errors.{
  Error, wrapf, Result, ok, err, reply, Reply, done, fails, is_not_exist, is_exist, exit_ok,
  exit_host_error,
}
use qpu_resource.Qrmiocs.Metadata.{Record}
use qpu_resource.Qrmiocs.LogLevel.{rust_log_from_debug}
use qpu_resource.Hooks.{
  System, Process, History, FileText, released, removed, linked, made_dir, created_resource,
  closed_resource, read, warn, info, error,
}
use qpu_resource.Hooks.Exec.{
  Exec, pure, raise, lift, call, wrapping, attempt, ◌>>=◌, ◌>>◌, or_else, deferring, log, note,
}
use qpu_resource.Hooks.Keeps.{
  Keeps, Keeps-pure, Keeps-note, Keeps-call, Keeps-if, Keeps-attempt, Keeps-or_else, Keeps-raise,
  Keeps-wrapping, Keeps-bind, Keeps-lift,
}
use qpu_resource.Qrmiocs.LogLevel.{rust_log_from_debug}
use qpu_resource.Epilog.Release.{EpilogConfig}
use qpu_resource.Epilog.Run.{set_rust_log}
use qpu_resource.Hooks.{Process}
use qpu_resource.Hooks.Triple.{
  Triple, Outcome, Triple-bind, Triple-Keeps, Triple-raise, Triple-call, Triple-deferring,
  Triple-if, Triple-weaken, Triple-worse, Triple-wrapping, Triple-attempt, Triple-attempt_result,
  ByResult, Triple-pure, Triple-fact,
}
use qpu_resource.Hooks.JobEnv.{resolve_metadata_path}
use qpu_resource.Hooks.JobEnv.Quiet.{resolve_spool_file-Keeps}
use qpu_resource.Hooks.MetadataFile.{remove_file, preserve_failed_release}
use qpu_resource.Epilog.Release.{EpilogConfig, set_release_env, release, release_record}
use qpu_resource.Epilog.Summary.{publish_summary}
use qpu_resource.Epilog.Run.{
  record_of_text, read_record, removal, preserved, settle, after_release, release_if_read, moment,
  finish, finish_or_skip, with_path, set_rust_log, run,
}

-- The tokens whose release was asked for.
unfoldable pub asked_back : History → List Text
asked_back [] = []
asked_back (released t r ∷ h) = t ∷ asked_back h
asked_back (_ ∷ h) = asked_back h

-- Where the record of a job is kept when its release has failed: outside the job's directory,
-- named after it.
abbrev pub kept_path : Text → Text
kept_path meta =
    join_path (join_path (dir (dir (dir meta))) (codes "qrmi_failed_releases"))
      (base (dir meta) ++ codes ".tsv")

-- libqrmi has released a token, or the metadata file `meta` was linked to where it is kept.
unfoldable pub secured : Text → History → Bool
secured meta [] = false
secured meta (released t (done _) ∷ h) = true
secured meta (linked from to (done _) ∷ h) =
    let before = secured meta h in
    if text_eq from meta && text_eq to (kept_path meta) then true else before
secured meta (_ ∷ h) = secured meta h

-- The metadata file was removed before that, or another file was removed.
unfoldable pub record_lost : Text → History → Bool
unfolding secured
record_lost meta [] = false
record_lost meta (removed path r ∷ h) =
    let before = record_lost meta h in if secured meta h && text_eq path meta then before else true
record_lost meta (_ ∷ h) = record_lost meta h

pub record Fate : Type 0 where
  pub asked : List Text
  pub secure : Bool
  pub lost : Bool

unfoldable pub fate : Text → History → Fate
unfolding asked_back secured record_lost
fate meta h = record { asked = asked_back h; secure = secured meta h; lost = record_lost meta h }

-- The releases asked for, and no loss of the record.
abbrev pub Intact : List Text → Fate → Type 0
Intact ts v = (v.asked ≡ ts) × (v.lost ≡ false)

-- At most the token of the record is asked back.
abbrev pub Asked : List Text → Result Record → Fate → Type 0
Asked ts r v =
    ((v.asked ≡ ts) ⊎ ((rec : Record) × (r ≡ ok rec) × (v.asked ≡ rec.token ∷ ts)))
    × (v.lost ≡ false)

-- The exit code where the metadata file exists.
abbrev pub code_of_read : Result Record → ℕ
code_of_read (ok rec) = 0
code_of_read (err e) = 1

-- And where it may be missing.
abbrev pub code_of_file : Result Record → ℕ
code_of_file (ok rec) = 0
code_of_file (err e) = if is_not_exist e then 0 else 1

-- How the epilog ends, from the process in which it resolves the metadata path: by that path,
-- where there is one, and by what `ReadStrictSingle` returns for it.
abbrev pub EndedAt : System → Process → List Text → Result Text → ℕ → Fate → Type 0
EndedAt s q ts (err e) code v = Intact ts v × (code ≡ 1)
EndedAt s q ts (ok path) code v =
    Asked ts (read_record s path q).0 v × (code ≡ code_of_file (read_record s path q).0)

-- The process once `RUST_LOG` is set.
abbrev pub with_rust_log : System → EpilogConfig → Process → Process
with_rust_log s cfg p = (set_rust_log s (rust_log_from_debug cfg.log_level) p).1

-- How the epilog ends.
abbrev pub Done : System → EpilogConfig → Process → List Text → ℕ → Fate → Type 0
Done s cfg p ts code v =
    EndedAt s (with_rust_log s cfg p) ts (resolve_metadata_path (with_rust_log s cfg p)).0 code v

-- The path of the metadata file in the epilog's run.
abbrev pub path_or_empty : Result Text → Text
path_or_empty (ok path) = path
path_or_empty (err e) = []

abbrev pub metadata_of : System → EpilogConfig → Process → Text
metadata_of s cfg p = path_or_empty (resolve_metadata_path (with_rust_log s cfg p)).0
