-- ===== src/Hooks/JobEnv/Quiet.antt =====
-- Writing to the job environment only appends to its file, as the history shows it.
use qpu_resource.Prelude.{List, [], ◌∷◌, ◌≡◌, refl, ◌∙◌, Text, codes, Option, none, some, is_nil}
use qpu_resource.Dict.{Dict}
use qpu_resource.Errors.{Error, Result, ok, err, Reply, done, fails, wrapf, errorf}
use qpu_resource.FilePath.{join_path}
use qpu_resource.Qrmiocs.LogLevel.{rust_log_from_debug}
use qpu_resource.Qrmiocs.Sanitize.{setenv}
use qpu_resource.Hooks.{History, Process, appended, System}
use qpu_resource.Hooks.Exec.{pure, raise, wrapping, attempt, getenv}
use qpu_resource.Hooks.Keeps.{
  Keeps, Keeps-bind, Keeps-wrapping, Keeps-pure, Keeps-raise, Keeps-attempt, Keeps-lift,
  Keeps-getenv, Keeps-if,
}
use qpu_resource.Hooks.JobEnv.{
  resolve_spool_file, with_env, set_process_env, append_line, append_reply, env_line, write_job_env,
  set, set_pairs, apply_rust_log, set_level, set_plugin_error, plugin_error_key, prolog_status_key,
  message_or_default, join_errors,
}

-- The view does not show what is appended to the job environment file.
pub record IgnoresAppends {κ} {X : Type κ} (f : History → X) : Type κ where
  pub ignored :
      (path line : Text) (r : Reply (Unit {0})) (h : History) → f (appended path line r ∷ h) ≡ f h

module _ {κ} {X : Type κ} (f : History → X) where
  pub resolve_spool_file-Keeps : (name : Text) → Keeps f (resolve_spool_file name)
  unfolding resolve_spool_file
  resolve_spool_file-Keeps name =
      Keeps-bind f (getenv (codes "SGE_JOB_SPOOL_DIR")) _
        (Keeps-getenv f (codes "SGE_JOB_SPOOL_DIR"))
        λ spool.
          Keeps-if f (is_nil spool) (raise (errorf "SGE_JOB_SPOOL_DIR is unset" []))
            (pure (join_path spool name)) (Keeps-raise f (errorf "SGE_JOB_SPOOL_DIR is unset" []))
            (Keeps-pure f (join_path spool name))

  with_env-history :
      (r : Result (Dict Text)) (p : Process) → f (with_env r p).1.history ≡ f p.history
  with_env-history (ok env) p = refl
  with_env-history (err e) p = refl

  pub set_process_env-Keeps : (key value : Text) → Keeps f (set_process_env key value)
  unfolding set_process_env
  set_process_env-Keeps key value = record { at = λ p. with_env-history (setenv key value p.env) p }

module _ {κ} {X : Type κ} (f : History → X) (ignores : IgnoresAppends f) (s : System)
    (path : Text) where
  append_reply-history :
      (key line : Text) (r : Reply (Unit {0})) (p : Process)
      → (append_reply s key line r p).1.history ≡ p.history
  append_reply-history key line (done _) p = refl
  append_reply-history key line (fails _) p = refl

  append_line-Keeps :
      (key line : Text) (o : Option Error) (p : Process)
      → f (append_line s path key line o p).1.history ≡ f p.history
  unfolding append_line
  append_line-Keeps key line (some e) p = refl
  append_line-Keeps key line none p =
      (λ i. f (
        append_reply-history key line (s.append p.history path line)
          (record p { history = appended path line (s.append p.history path line) ∷ p.history }) i))
      ∙ ignores.ignored path line (s.append p.history path line) p.history

  write_job_env-Keeps : (key value : Text) → Keeps f (write_job_env s path key value)
  unfolding write_job_env
  write_job_env-Keeps key value = record {
    at = λ p. append_line-Keeps key (env_line key value) p.writer_error p;
  }

  pub set-Keeps : (key value : Text) → Keeps f (set s path key value)
  unfolding set
  set-Keeps key value =
      Keeps-bind f (wrapping (wrapf "setenv %s: %w" (key ∷ [])) (set_process_env key value)) _
        (Keeps-wrapping f _ (set_process_env key value) (set_process_env-Keeps f key value))
        λ _. write_job_env-Keeps key value

  pub set_pairs-Keeps : (pairs : List (Text × Text)) → Keeps f (set_pairs s path pairs)
  unfolding set_pairs
  set_pairs-Keeps [] = Keeps-pure f tt
  set_pairs-Keeps ((key, value) ∷ pairs) =
      Keeps-bind f (set s path key value) _ (set-Keeps key value) λ _. set_pairs-Keeps pairs

  set_level-Keeps : (o : Option Text) → Keeps f (set_level s path o)
  set_level-Keeps none = Keeps-pure f tt
  set_level-Keeps (some level) = set-Keeps (codes "RUST_LOG") level

  pub apply_rust_log-Keeps : (level : Text) → Keeps f (apply_rust_log s path level)
  unfolding apply_rust_log
  apply_rust_log-Keeps level = set_level-Keeps (rust_log_from_debug level)

  pub set_plugin_error-Keeps : (message : Text) → Keeps f (set_plugin_error s path message)
  unfolding set_plugin_error
  set_plugin_error-Keeps message =
      Keeps-bind f (attempt (set s path (plugin_error_key s) (message_or_default s message))) _
        (Keeps-attempt f (set s path (plugin_error_key s) (message_or_default s message))
          (set-Keeps (plugin_error_key s) (message_or_default s message)))
        λ first.
          Keeps-bind f (attempt (set s path (prolog_status_key s) (codes "error"))) _
            (Keeps-attempt f (set s path (prolog_status_key s) (codes "error"))
              (set-Keeps (prolog_status_key s) (codes "error")))
            λ second. Keeps-lift f (join_errors s first second)
