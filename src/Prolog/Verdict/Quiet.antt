-- ===== src/Prolog/Verdict/Quiet.antt =====
-- The steps of the prolog that neither ask the QPU nor make its resource.
use qpu_resource.Prelude.{List, refl, Text, String}
use qpu_resource.Errors.{Error, Result, ok, err}
use qpu_resource.Qrmiocs.Metadata.{Record}
use qpu_resource.Hooks.{
  Level, System, Process, ResourceDef, released, created_temp, wrote, renamed, removed, closed,
  opened, changed_mode,
}
use qpu_resource.Hooks.Exec.{call, log}
use qpu_resource.Hooks.Keeps.{Keeps, Keeps-call, Keeps-log, keeps_rules}
use qpu_resource.Hooks.JobEnv.{
  set, set_pairs, set_plugin_error, close_job_env, open_job_env, new_writer,
}
use qpu_resource.Hooks.JobEnv.Quiet.{
  IgnoresAppends, resolve_spool_file-Keeps, set-Keeps, set_pairs-Keeps, set_plugin_error-Keeps,
}
use qpu_resource.Hooks.MetadataFile.{close_file, remove_file, write_and_rename, write_atomic}
use qpu_resource.Prolog.Acquire.{report_error, release_token, keep_token}
use qpu_resource.Prolog.Verdict.{flags}

pub flags-IgnoresAppends : IgnoresAppends flags
unfolding flags
flags-IgnoresAppends = record { ignored = λ path line r h. refl }

pub logged-Keeps :
    (level : Level) (format : String) (args : List Text) → Keeps flags (log level format args)
unfolding flags
logged-Keeps level format args = Keeps-log flags level format args λ h. refl

now-Keeps : {A : Type 0} (f : Process → A) → Keeps flags (λ p. (ok (f p), p))
now-Keeps f = record { at = λ p. refl }

module _ (s : System) where
  release_token-Keeps : (token : Text) → Keeps flags (release_token s token)
  unfolding release_token flags
  release_token-Keeps token = Keeps-call flags (released token) (λ h. s.release h token) λ r h. refl

  close_file-Keeps : (path : Text) → Keeps flags (close_file s path)
  unfolding close_file flags
  close_file-Keeps path = Keeps-call flags (closed path) (λ h. s.close h path) λ r h. refl

  remove_file-Keeps : (path : Text) → Keeps flags (remove_file s path)
  unfolding remove_file flags
  remove_file-Keeps path = Keeps-call flags (removed path) (λ h. s.remove h path) λ r h. refl

  wrote-Keeps : (path text : Text) → Keeps flags (call (wrote path text) (λ h. s.write h path text))
  unfolding flags
  wrote-Keeps path text = Keeps-call flags (wrote path text) (λ h. s.write h path text) λ r h. refl

  renamed-Keeps :
      (tmp path : Text) → Keeps flags (call (renamed tmp path) (λ h. s.rename h tmp path))
  unfolding flags
  renamed-Keeps tmp path =
      Keeps-call flags (renamed tmp path) (λ h. s.rename h tmp path) λ r h. refl

  created_temp-Keeps : (d : Text) → Keeps flags (call (created_temp d) (λ h. s.create_temp h d))
  unfolding flags
  created_temp-Keeps d = Keeps-call flags (created_temp d) (λ h. s.create_temp h d) λ r h. refl

  write_and_rename-Keeps :
      (path tmp : Text) (r : Result Text) → Keeps flags (write_and_rename s path tmp r)
  unfolding write_and_rename
  write_and_rename-Keeps path tmp (err e) = search (keeps_rules, close_file-Keeps)
  write_and_rename-Keeps path tmp (ok text) =
      search (keeps_rules, close_file-Keeps, wrote-Keeps, renamed-Keeps) depth 12

  write_atomic-Keeps :
      (path : Text) (records : List Record) → Keeps flags (write_atomic s path records)
  unfolding write_atomic
  write_atomic-Keeps path records =
      search (keeps_rules, created_temp-Keeps, remove_file-Keeps, write_and_rename-Keeps)

  pub plugin_error-Keeps : (path message : Text) → Keeps flags (set_plugin_error s path message)
  plugin_error-Keeps path message = set_plugin_error-Keeps flags flags-IgnoresAppends s path message

  pub report_error-Keeps :
      {A : Type 0} (path : Text) (e : Error) → Keeps flags (report_error s {A = A} path e)
  unfolding report_error
  report_error-Keeps path e = search (keeps_rules, plugin_error-Keeps, logged-Keeps) depth 12

  exported-Keeps : (path key value : Text) → Keeps flags (set s path key value)
  exported-Keeps path key value = set-Keeps flags flags-IgnoresAppends s path key value

  pub pairs-Keeps :
      (path : Text) (pairs : List (Text × Text)) → Keeps flags (set_pairs s path pairs)
  pairs-Keeps path pairs = set_pairs-Keeps flags flags-IgnoresAppends s path pairs

  pub keep_token-Keeps :
      (path backend : Text) (d : ResourceDef) (token : Text)
      → Keeps flags (keep_token s path backend d token)
  unfolding keep_token
  keep_token-Keeps path backend d token =
      search
        (
          keeps_rules, now-Keeps, release_token-Keeps, report_error-Keeps, pairs-Keeps,
          resolve_spool_file-Keeps, write_atomic-Keeps, exported-Keeps, logged-Keeps,
        )
        depth 14

  pub close_job_env-Keeps : (path : Text) → Keeps flags (close_job_env s path)
  unfolding close_job_env flags
  close_job_env-Keeps path = Keeps-call flags (closed path) (λ h. s.close h path) λ r h. refl

  opened-Keeps : (path : Text) → Keeps flags (call (opened path 0o600) (λ h. s.open_append h path))
  unfolding flags
  opened-Keeps path = Keeps-call flags (opened path 0o600) (λ h. s.open_append h path) λ r h. refl

  changed_mode-Keeps :
      (path : Text) → Keeps flags (call (changed_mode path 0o600) (λ h. s.chmod h path))
  unfolding flags
  changed_mode-Keeps path =
      Keeps-call flags (changed_mode path 0o600) (λ h. s.chmod h path) λ r h. refl

  new_writer-Keeps : (path : Text) → Keeps flags (new_writer s path)
  new_writer-Keeps path = record { at = λ p. refl }

  pub open_job_env-Keeps : Keeps flags (open_job_env s)
  unfolding open_job_env
  open_job_env-Keeps =
      search
        (
          keeps_rules, resolve_spool_file-Keeps, opened-Keeps, changed_mode-Keeps,
          close_job_env-Keeps, new_writer-Keeps,
        )
        depth 12
