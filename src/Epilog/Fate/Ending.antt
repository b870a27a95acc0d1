-- ===== src/Epilog/Fate/Ending.antt =====
-- `run` of src/cmd/qrmi-ocs-epilog-go/main.go: its exit code, the token that it releases, and the
-- record of a failed release.
use Prim.{⊥}
use qpu_resource.Prelude.{
  ℕ, List, [], ◌∷◌, ◌≡◌, refl, Text, codes, Bool, true, false, if◌then◌else◌, inl,
}
use qpu_resource.Errors.{Error, Result, ok, err, is_not_exist, exit_ok}
use qpu_resource.Qrmiocs.Metadata.{Record}
use qpu_resource.Qrmiocs.LogLevel.{rust_log_from_debug}
use qpu_resource.Hooks.{System, Process, read, info}
use qpu_resource.Hooks.Exec.{pure, ◌>>=◌, ◌>>◌, log}
use qpu_resource.Hooks.Keeps.{Keeps, Keeps-call, Keeps-bind, Keeps-lift}
use mathlib.Core.Path.{subst}
use qpu_resource.FilePath.{join_path}
use qpu_resource.Dict.{value_of}
use qpu_resource.Errors.{errorf}
use qpu_resource.Prelude.{sym, is_nil}
use qpu_resource.Hooks.Exec.{raise, getenv, attempt}
use qpu_resource.Epilog.Run.{set_rust_log}
use qpu_resource.Hooks.JobEnv.Quiet.{set_process_env-Keeps}
use qpu_resource.Prelude.{Option, none, some}
use qpu_resource.Hooks.JobEnv.{resolve_spool_file}
use qpu_resource.Hooks.Keeps.{Keeps-attempt}
use qpu_resource.Epilog.Fate.{with_rust_log}
use qpu_resource.Hooks.Triple.{
  Triple, Outcome, Triple-bind, Triple-weaken, Triple-attempt_result, after_ok, ByResult,
  Triple-fact,
}
use qpu_resource.Hooks.JobEnv.{resolve_metadata_path}
use qpu_resource.Epilog.Release.{EpilogConfig, release_record}
use qpu_resource.Epilog.Run.{
  record_of_text, read_record, settle, after_release, release_if_read, finish, finish_or_skip,
  with_path, run,
}
use qpu_resource.Epilog.Fate.{
  Fate, fate, asked_back, record_lost, Intact, Asked, code_of_read, code_of_file, EndedAt, Done,
  path_or_empty, metadata_of,
}
use qpu_resource.Epilog.Fate.Quiet.{publish_summary-Calm, log-Calm}
use qpu_resource.Epilog.Fate.Release.{release_record-Triple, Safe, settle-Triple}

module _ (s : System) (cfg : EpilogConfig) (path : Text) (ts : List Text) where
  abbrev Ended : Result Record → ℕ × ℕ → Fate → Type 0
  Ended r (n, code) v = Safe path s ts r n v × (code ≡ code_of_read r)

  after_release-Triple :
      (rec : Record) (x : Result (Unit {0}))
      → Triple
          (fate path)
          (ByResult
            (fate path)
            (λ _ v. Asked ts (ok rec) v × (v.secure ≡ true))
            (Asked ts (ok rec))
            x)
          (after_release s x)
          (Ended (ok rec))
          (λ _. ⊥)
  unfolding pure log fate ◌>>=◌
  after_release-Triple rec (ok _) = record { at = λ p h. (h, refl) }
  after_release-Triple rec (err e) = record { at = λ p h. (h, refl) }

  release_if_read-Triple :
      (r : Result Record)
      → Triple (fate path) (Intact ts) (release_if_read s cfg path r) (Ended r) (λ _. ⊥)
  unfolding release_if_read pure log fate ◌>>=◌
  release_if_read-Triple (err e) = record { at = λ p (a, l). ((inl a, l), refl) }
  release_if_read-Triple (ok rec) =
      Triple-bind (fate path) _ (Ended (ok rec)) (λ _. ⊥) (Intact ts) _ _
        (Triple-attempt_result (fate path) _ _ (Intact ts) (λ _. ⊥) (release_record s cfg rec)
          (release_record-Triple path s cfg ts rec))
        λ x. after_release-Triple rec x

  abbrev pub Closing : Result Record → ℕ → Fate → Type 0
  Closing r code v = Asked ts r v × (code ≡ code_of_read r)

  finish-Triple :
      (r : Result Record)
      → Triple (fate path) (Intact ts) (finish s cfg path r) (Closing r) (λ _. ⊥)
  unfolding finish pure
  finish-Triple r =
      Triple-bind (fate path) (λ _. Intact ts) (Closing r) (λ _. ⊥) (Intact ts) _ _
        (record { at = λ p h. h })
        λ start.
          Triple-bind (fate path) (Ended r) (Closing r) (λ _. ⊥) (Intact ts) _ _
            (release_if_read-Triple r)
            λ outcome.
              Triple-bind (fate path) (λ _. Closing r outcome.1) (Closing r) (λ _. ⊥)
                (Ended r outcome) _ _
                (Triple-fact (fate path) (λ _. Closing r outcome.1) (λ _. ⊥)
                  (Safe path s ts r outcome.0) (settle s path outcome.0)
                  λ code.
                    Triple-weaken (fate path) (λ _. Asked ts r) (λ _. ⊥)
                      (Safe path s ts r outcome.0) _ _ (λ _ v a. (a, code))
                      (settle-Triple path s ts r outcome.0))
                λ _.
                  Triple-bind (fate path) (λ _. Closing r outcome.1) (Closing r) (λ _. ⊥)
                    (Closing r outcome.1) _ _ (record { at = λ p h. h })
                    λ end.
                      Triple-bind (fate path) (λ _. Closing r outcome.1) (Closing r) (λ _. ⊥)
                        (Closing r outcome.1) _ _
                        (publish_summary-Calm path s (Closing r outcome.1) outcome.0
                          (s.seconds_between start end))
                        λ _.
                          Triple-bind (fate path) (λ _. Closing r outcome.1) (Closing r) (λ _. ⊥)
                            (Closing r outcome.1) _ _
                            (log-Calm path s (Closing r outcome.1) info
                              "release summary: total=1 success=%d failed=%d elapsed=%ds" _)
                            λ _. record { at = λ p h. h }

  abbrev pub Skipped : Result Record → ℕ → Fate → Type 0
  Skipped r code v = Asked ts r v × (code ≡ code_of_file r)

  skip_or_finish :
      (e : Error) (missing : Bool)
      → Triple
          (fate path)
          (Intact ts)
          (if missing
            then (do
              log info "no metadata file found at %s; skipping release" (path ∷ [])
              pure exit_ok)
            else finish s cfg path (err e))
          (λ code v. Asked ts (err e) v × (code ≡ (if missing then 0 else 1)))
          (λ _. ⊥)
  unfolding ◌>>=◌ log pure fate
  skip_or_finish e true = record { at = λ p (a, l). ((inl a, l), refl) }
  skip_or_finish e false = finish-Triple (err e)

  finish_or_skip-Triple :
      (r : Result Record)
      → Triple (fate path) (Intact ts) (finish_or_skip s cfg path r) (Skipped r) (λ _. ⊥)
  finish_or_skip-Triple (ok rec) = finish-Triple (ok rec)
  finish_or_skip-Triple (err e) = skip_or_finish e (is_not_exist e)

module _ (s : System) (cfg : EpilogConfig) (ts : List Text) where
  read_record-Keeps : (meta path : Text) → Keeps (fate meta) (read_record s path)
  unfolding read_record fate
  read_record-Keeps meta path =
      Keeps-bind (fate meta) _ _
        (Keeps-call (fate meta) (λ _. read path) (λ h. s.read_file h path) λ r h. refl)
        λ f. Keeps-lift (fate meta) (record_of_text s f)

  -- Nothing happens while the path is resolved.
  resolved-process : (q : Process) → (attempt resolve_metadata_path q).1 ≡ q
  unfolding attempt resolve_spool_file ◌>>=◌ getenv pure raise
  resolved-process q = same (is_nil (value_of (codes "SGE_JOB_SPOOL_DIR") q.env))
    where
      same :
          (b : Bool)
          → ((if b
                then raise {A = Text} (errorf "SGE_JOB_SPOOL_DIR is unset" [])
                else pure (
                    join_path
                      (value_of (codes "SGE_JOB_SPOOL_DIR") q.env)
                      (codes "qrmi_ocs_acquired.tsv")))
              q).1
            ≡ q
      same true = refl
      same false = refl

  read-Intact :
      (path : Text) (q : Process)
      → Intact ts ((fate path) q.history)
      → Intact ts ((fate path) (attempt (read_record s path) q).1.history)
  read-Intact path q h =
      subst (Intact ts)
        (sym ((Keeps-attempt (fate path) (read_record s path) (read_record-Keeps path path)).at q))
        h

  with_path-EndedAt :
      (r : Result Text) (q : Process)
      → Intact ts ((fate (path_or_empty r)) q.history)
      → Outcome (fate (path_or_empty r)) (EndedAt s q ts r) (λ _. ⊥) (with_path s cfg r q)
  unfolding log pure fate ◌>>=◌ attempt
  with_path-EndedAt (err e) q h = (h, refl)
  with_path-EndedAt (ok path) q h =
      after_ok (fate path) (EndedAt s q ts (ok path)) (λ _. ⊥) (attempt (read_record s path))
        (finish_or_skip s cfg path) q (read_record s path q).0 refl
        ((finish_or_skip-Triple s cfg path ts (read_record s path q).0).at
          (attempt (read_record s path) q).1 (read-Intact path q h))

  set_rust_log-ok : (level : Option Text) (p : Process) → (set_rust_log s level p).0 ≡ ok tt
  unfolding pure attempt ◌>>=◌
  set_rust_log-ok none p = refl
  set_rust_log-ok (some level) p = refl

  set_rust_log-Intact :
      (meta : Text) (level : Option Text) (p : Process)
      → Intact ts ((fate meta) p.history)
      → Intact ts ((fate meta) (set_rust_log s level p).1.history)
  unfolding pure attempt ◌>>=◌
  set_rust_log-Intact meta none p h = h
  set_rust_log-Intact meta (some level) p h =
      subst (Intact ts) (sym ((set_process_env-Keeps (fate meta) (codes "RUST_LOG") level).at p)) h

  run-EndedAt :
      (p : Process)
      → Intact ts ((fate (metadata_of s cfg p)) p.history)
      → Outcome (fate (metadata_of s cfg p)) (Done s cfg p ts) (λ _. ⊥) (run s cfg p)
  unfolding run
  run-EndedAt p h =
      let q = with_rust_log s cfg p in
      after_ok (fate (metadata_of s cfg p)) (Done s cfg p ts) (λ _. ⊥)
        (set_rust_log s (rust_log_from_debug cfg.log_level)) _ p tt
        (set_rust_log-ok (rust_log_from_debug cfg.log_level) p)
        (after_ok (fate (metadata_of s cfg p)) (Done s cfg p ts) (λ _. ⊥)
          (attempt resolve_metadata_path) (with_path s cfg) q (resolve_metadata_path q).0
          (unfold attempt in refl)
          (subst
            (λ x.
              Outcome (fate (metadata_of s cfg p)) (Done s cfg p ts) (λ _. ⊥)
                (with_path s cfg (resolve_metadata_path q).0 x))
            (sym (resolved-process q))
            (with_path-EndedAt (resolve_metadata_path q).0 q
              (set_rust_log-Intact (metadata_of s cfg p) (rust_log_from_debug cfg.log_level) p h))))

-- Whatever the system and libqrmi reply, and from any process in which the record was not lost before,
-- the epilog returns an exit code and no error, and:
-- where the metadata path cannot be resolved, the code is 1, no release is asked for and no file is
-- removed; else
-- the code is 0 if the metadata was read or the file does not exist, and 1 on any other error;
-- a release is asked for at most once, and then of the token of the record that was read;
-- and no file but the metadata file is removed, and that only after a release succeeded or after it
-- was linked to the job's file below `qrmi_failed_releases` outside of the job's directory.
pub run-Done :
    (s : System) (cfg : EpilogConfig) (p : Process)
    → record_lost (metadata_of s cfg p) p.history ≡ false
    → Outcome
        (fate (metadata_of s cfg p))
        (Done s cfg p (asked_back p.history))
        (λ _. ⊥)
        (run s cfg p)
unfolding fate
run-Done s cfg p kept = run-EndedAt s cfg (asked_back p.history) p (refl, kept)
