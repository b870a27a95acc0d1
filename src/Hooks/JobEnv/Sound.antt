-- ===== src/Hooks/JobEnv/Sound.antt =====
-- Writing to the job environment and to the metadata file fails with known errors only.
use qpu_resource.Prelude.{
  Bool, true, false, List, [], ◌∷◌, Text, codes, Option, none, some, if◌then◌else◌,
}
use qpu_resource.Dict.{Dict}
use qpu_resource.Errors.{Error, Result, ok, err, Reply, done, fails}
use qpu_resource.Qrmiocs.LogLevel.{rust_log_from_debug}
use qpu_resource.Qrmiocs.Sanitize.{setenv}
use qpu_resource.Qrmiocs.Metadata.{Record, render_records}
use qpu_resource.Hooks.{Process, System}
use qpu_resource.Hooks.Codes.{
  IsKnown, IsKnown-plain, IsKnown-failed, IsKnown-wrapf, IsKnown-joined, KnownIn, known_rules,
}
use qpu_resource.Hooks.Sound.{KnownWriter, Sound, Sound-bind, Sound-pure, Sound-call, sound_rules}
use qpu_resource.Hooks.JobEnv.{
  resolve_spool_file, with_env, set_process_env, append_line, append_reply, write_job_env,
  close_job_env, open_job_env, new_writer, set, set_pairs, apply_rust_log, set_level,
  set_plugin_error, join_errors,
}
use qpu_resource.Hooks.MetadataFile.{metadata_failure, write_and_rename, write_atomic}

module _ (c : Bool) where
  pub resolve_spool_file-Sound : (name : Text) → Sound c (resolve_spool_file name)
  unfolding resolve_spool_file
  resolve_spool_file-Sound name = search (sound_rules, known_rules)

  pub setenv-KnownIn : (key value : Text) (env : Dict Text) → KnownIn c (setenv key value env)
  unfolding setenv
  setenv-KnownIn key value env = search (known_rules)

  with_env-KnownIn :
      (r : Result (Dict Text)) (p : Process)
      → KnownIn c r
      → KnownWriter p.writer_error
      → KnownIn c (with_env r p).0 × KnownWriter (with_env r p).1.writer_error
  with_env-KnownIn (ok env) p k w = (tt, w)
  with_env-KnownIn (err e) p k w = (k, w)

  set_process_env-Sound : (key value : Text) → Sound c (set_process_env key value)
  unfolding set_process_env
  set_process_env-Sound key value = record {
    at = λ p w. with_env-KnownIn (setenv key value p.env) p (setenv-KnownIn key value p.env) w;
  }

  module _ (s : System) (path : Text) where
    write_failure-IsKnown :
        (b : Bool) (e e' : Error) → IsKnown c e → IsKnown c e' → IsKnown c (if b then e else e')
    write_failure-IsKnown true e e' k k' = k
    write_failure-IsKnown false e e' k k' = k'

    append_reply-KnownIn :
        (key line : Text) (r : Reply (Unit {0})) (p : Process)
        → KnownWriter p.writer_error
        → KnownIn c (append_reply s key line r p).0
          × KnownWriter (append_reply s key line r p).1.writer_error
    append_reply-KnownIn key line (done _) p w = (tt, w)
    append_reply-KnownIn key line (fails x) p w = (
      write_failure-IsKnown _ _ _ (IsKnown-wrapf _ _ _ (IsKnown-failed x))
          (IsKnown-wrapf _ _ _ (IsKnown-failed x)),
      IsKnown-failed x,
    )

    append_line-KnownIn :
        (key line : Text) (o : Option Error) (p : Process)
        → KnownWriter o
        → KnownWriter p.writer_error
        → KnownIn c (append_line s path key line o p).0
          × KnownWriter (append_line s path key line o p).1.writer_error
    unfolding append_line
    append_line-KnownIn key line (some e) p k w = (IsKnown-wrapf _ _ e (IsKnown-plain e k), w)
    append_line-KnownIn key line none p k w =
        append_reply-KnownIn key line (s.append p.history path line) _ w

    write_job_env-Sound : (key value : Text) → Sound c (write_job_env s path key value)
    unfolding write_job_env
    write_job_env-Sound key value = record {
      at = λ p w. append_line-KnownIn key _ p.writer_error p w w;
    }

    pub set-Sound : (key value : Text) → Sound c (set s path key value)
    unfolding set
    set-Sound key value =
        search (sound_rules, known_rules, set_process_env-Sound, write_job_env-Sound)

    pub set_pairs-Sound : (pairs : List (Text × Text)) → Sound c (set_pairs s path pairs)
    unfolding set_pairs
    set_pairs-Sound [] = Sound-pure tt
    set_pairs-Sound ((key, value) ∷ pairs) =
        Sound-bind (set s path key value) _ (set-Sound key value) λ _. set_pairs-Sound pairs

    set_level-Sound : (o : Option Text) → Sound c (set_level s path o)
    set_level-Sound none = Sound-pure tt
    set_level-Sound (some level) = set-Sound (codes "RUST_LOG") level

    pub apply_rust_log-Sound : (level : Text) → Sound c (apply_rust_log s path level)
    unfolding apply_rust_log
    apply_rust_log-Sound level = set_level-Sound (rust_log_from_debug level)

    join_errors-KnownIn :
        (a b : Result (Unit {0})) → KnownIn c a → KnownIn c b → KnownIn c (join_errors s a b)
    join_errors-KnownIn (ok _) b k l = l
    join_errors-KnownIn (err e) (ok _) k l = k
    join_errors-KnownIn (err e) (err e') k l = IsKnown-joined e e' k l

    pub set_plugin_error-Sound : (message : Text) → Sound c (set_plugin_error s path message)
    unfolding set_plugin_error
    set_plugin_error-Sound message =
        search (sound_rules, known_rules, set-Sound, join_errors-KnownIn)

    pub close_job_env-Sound : Sound c (close_job_env s path)
    unfolding close_job_env
    close_job_env-Sound = Sound-call _ _

  module _ (s : System) where
    new_writer-Sound : (path : Text) → Sound c (new_writer s path)
    new_writer-Sound path = record { at = λ p w. (tt, tt) }

    pub open_job_env-Sound : Sound c (open_job_env s)
    unfolding open_job_env
    open_job_env-Sound =
        search (sound_rules, known_rules, resolve_spool_file-Sound, new_writer-Sound) depth 12

    render_records-KnownIn : (rs : List Record) → KnownIn c (render_records rs)
    unfolding render_records
    render_records-KnownIn [] = tt
    render_records-KnownIn (r ∷ rs) = search (known_rules, render_records-KnownIn rs)

    metadata_failure-IsKnown :
        (text : Text) (e : Error) → IsKnown c e → IsKnown c (metadata_failure text e)
    metadata_failure-IsKnown text e k =
        write_failure-IsKnown s [] _ _ _ (IsKnown-wrapf _ _ e k) (IsKnown-wrapf _ _ e k)

    write_and_rename-Sound :
        (path tmp : Text) (r : Result Text) → KnownIn c r → Sound c (write_and_rename s path tmp r)
    unfolding write_and_rename
    write_and_rename-Sound path tmp (err e) k = search (sound_rules, known_rules)
    write_and_rename-Sound path tmp (ok text) k =
        search (sound_rules, known_rules, metadata_failure-IsKnown)

    pub write_atomic-Sound : (path : Text) (rs : List Record) → Sound c (write_atomic s path rs)
    unfolding write_atomic
    write_atomic-Sound path rs =
        search (sound_rules, known_rules, write_and_rename-Sound, render_records-KnownIn)
