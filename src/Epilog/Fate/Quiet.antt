-- ===== src/Epilog/Fate/Quiet.antt =====
-- The steps of the epilog that neither release a token nor remove or link a file.
use Prim.{⊥}
use qpu_resource.Prelude.{ℕ, List, [], ◌∷◌, refl, Text, codes, String}
use qpu_resource.Prelude.Int.{ℤ}
use qpu_resource.Errors.{Error, wrapf, Result, ok, err}
use qpu_resource.Qrmiocs.Metadata.{Record}
use qpu_resource.Hooks.Triple.{
  Triple, Triple-bind, Triple-Keeps, Triple-or_else, Triple-attempt, Triple-deferring, Triple-pure,
}
use qpu_resource.Hooks.{
  Level, System, Config, ResourceDef, loaded_config, closed_config, closed_def, created_resource,
  opened, appended, changed_mode, closed, warn,
}
use qpu_resource.Hooks.Exec.{Exec, pure, call, attempt, ◌>>=◌, or_else, log, note, getenv}
use qpu_resource.Hooks.Keeps.{
  Keeps, Keeps-bind, Keeps-wrapping, Keeps-pure, Keeps-raise, Keeps-attempt, Keeps-lift, Keeps-call,
  Keeps-or_else, Keeps-note, Keeps-deferring,
}
use qpu_resource.Hooks.JobEnv.{
  set, set_process_env, env_line, open_job_env, close_job_env, resolve_usage_path,
  resolve_job_env_path,
}
use qpu_resource.Hooks.JobEnv.Quiet.{
  IgnoresAppends, resolve_spool_file-Keeps, set-Keeps, set_process_env-Keeps,
}
use qpu_resource.Prolog.Scheduler.{scheduler_job_id}
use qpu_resource.Epilog.Release.{
  EpilogConfig, release_uid, setenv_all, set_env_of_definition, set_env_of_config, set_release_env,
  release_pairs,
}
use qpu_resource.Epilog.Summary.{
  append_metrics, append_usage, mirror_metrics, account_in, account, mirror_and_account,
  publish_summary, mirrored, accounted,
}
use qpu_resource.Epilog.Fate.{Fate, fate}

module _ (meta : Text) where
  pub fate-IgnoresAppends : IgnoresAppends (fate meta)
  unfolding fate
  fate-IgnoresAppends = record { ignored = λ path line r h. refl }

  setenv_all-Keeps : (pairs : List (Text × Text)) → Keeps (fate meta) (setenv_all pairs)
  unfolding setenv_all
  setenv_all-Keeps [] = Keeps-pure (fate meta) tt
  setenv_all-Keeps ((k, v) ∷ pairs) =
      Keeps-bind (fate meta) _ _
        (Keeps-wrapping (fate meta) (wrapf "setenv %s: %w" (k ∷ [])) (set_process_env k v)
          (set_process_env-Keeps (fate meta) k v))
        λ _. setenv_all-Keeps pairs

  scheduler_job_id-Keeps : Keeps (fate meta) scheduler_job_id
  unfolding scheduler_job_id getenv
  scheduler_job_id-Keeps = record { at = λ p. refl }

  module _ (s : System) where
    close_job_env-Keeps : (path : Text) → Keeps (fate meta) (close_job_env s path)
    unfolding close_job_env fate
    close_job_env-Keeps path =
        Keeps-call (fate meta) (closed path) (λ h. s.close h path) λ r h. refl

    module _ (cfg : EpilogConfig) where
      set_env_of_definition-Keeps :
          (r : Record) (d : ResourceDef) → Keeps (fate meta) (set_env_of_definition s cfg r d)
      unfolding set_env_of_definition
      set_env_of_definition-Keeps r d =
          Keeps-bind (fate meta) _ _ (Keeps-lift (fate meta) (release_uid s.machine cfg.job_owner))
            λ uid.
              Keeps-bind (fate meta) scheduler_job_id _ scheduler_job_id-Keeps
                λ job_id. setenv_all-Keeps (release_pairs uid job_id r d)

      closed_def-Keeps : Keeps (fate meta) (note closed_def)
      unfolding fate
      closed_def-Keeps = Keeps-note (fate meta) closed_def λ h. refl

      closed_config-Keeps : Keeps (fate meta) (note closed_config)
      unfolding fate
      closed_config-Keeps = Keeps-note (fate meta) closed_config λ h. refl

      loaded-Keeps :
          Keeps
            (fate meta)
            (call (λ _. loaded_config cfg.config_path) (λ h. s.load_config h cfg.config_path))
      unfolding fate
      loaded-Keeps = Keeps-call (fate meta) _ (λ h. s.load_config h cfg.config_path) λ r h. refl

      set_env_of_config-Keeps :
          (r : Record) (c : Config) → Keeps (fate meta) (set_env_of_config s cfg r c)
      unfolding set_env_of_config
      set_env_of_config-Keeps r c = Keeps-bind (fate meta) _ _ (Keeps-lift (fate meta) _) λ d.
          Keeps-deferring (fate meta) (note closed_def) _ closed_def-Keeps
            (set_env_of_definition-Keeps r d)

      pub set_release_env-Keeps : (r : Record) → Keeps (fate meta) (set_release_env s cfg r)
      unfolding set_release_env
      set_release_env-Keeps r =
          Keeps-bind (fate meta) _ _
            (Keeps-wrapping (fate meta) (wrapf "load qrmi config %s: %w" (cfg.config_path ∷ [])) _
              loaded-Keeps)
            λ c.
              Keeps-deferring (fate meta) (note closed_config) _ closed_config-Keeps
                (set_env_of_config-Keeps r c)

    pub created-Keeps :
        (name : Text) (kind : ℤ)
        → Keeps (fate meta) (call (created_resource name kind) (λ h. s.new_resource h name kind))
    unfolding fate
    created-Keeps name kind =
        Keeps-call (fate meta) (created_resource name kind) (λ h. s.new_resource h name kind)
          λ r h. refl

    appended-Keeps :
        (path line : Text)
        → Keeps (fate meta) (call (appended path line) (λ h. s.append h path line))
    unfolding fate
    appended-Keeps path line =
        Keeps-call (fate meta) (appended path line) (λ h. s.append h path line) λ r h. refl

    append_metrics-Keeps :
        (path : Text) (metrics : List (Text × Text))
        → Keeps (fate meta) (append_metrics s path metrics)
    unfolding append_metrics
    append_metrics-Keeps path [] = Keeps-pure (fate meta) tt
    append_metrics-Keeps path ((k, v) ∷ metrics) =
        Keeps-bind (fate meta) _ _ (appended-Keeps path (env_line k v))
          λ _. append_metrics-Keeps path metrics

    append_usage-Keeps :
        (path : Text) (metrics : List (Text × Text))
        → Keeps (fate meta) (append_usage s path metrics)
    unfolding append_usage fate
    append_usage-Keeps path metrics =
        Keeps-bind (fate meta) (call (opened path 0o644) (λ h. s.open_append h path)) _
          (Keeps-call (fate meta) (opened path 0o644) (λ h. s.open_append h path) λ r h. refl)
          λ _.
            Keeps-deferring (fate meta) (close_job_env s path) _ (close_job_env-Keeps path)
              (append_metrics-Keeps path metrics)

    open_job_env-Keeps : Keeps (fate meta) (open_job_env s)
    unfolding open_job_env fate
    open_job_env-Keeps =
        Keeps-bind (fate meta) resolve_job_env_path _
          (resolve_spool_file-Keeps (fate meta) (codes "environment"))
          λ path.
            Keeps-bind (fate meta) _ _
              (Keeps-wrapping (fate meta) (wrapf "open job env %s: %w" (path ∷ []))
                (call (opened path 0o600) (λ h. s.open_append h path))
                (Keeps-call (fate meta) (opened path 0o600) (λ h. s.open_append h path)
                  λ r h. refl))
              λ _.
                Keeps-bind (fate meta) _ _
                  (Keeps-or_else (fate meta) (call (changed_mode path 0o600) (λ h. s.chmod h path))
                    _
                    (Keeps-call (fate meta) (changed_mode path 0o600) (λ h. s.chmod h path)
                      λ r h. refl)
                    λ e.
                      Keeps-bind (fate meta) (attempt (close_job_env s path)) _
                        (Keeps-attempt (fate meta) (close_job_env s path)
                          (close_job_env-Keeps path))
                        λ _.
                          Keeps-raise (fate meta)
                            (wrapf "set job env permissions %s: %w" (path ∷ []) e))
                  λ _. record { at = λ p. refl }

    -- An action that never fails, and keeps what holds of the (fate meta).
    abbrev pub Calm {ℓ} : {A : Type ℓ} → (Fate → Type 0) → Exec A → Type 0
    Calm before m = Triple (fate meta) before m (λ _. before) (λ _. ⊥)

    module _ (before : Fate → Type 0) where
      pub log-Calm :
          (level : Level) (format : String) (args : List Text) → Calm before (log level format args)
      unfolding log fate
      log-Calm level format args = record { at = λ p h. h }

      pub pure-Calm {ℓ} : {A : Type ℓ} (a : A) → Calm before (pure a)
      pure-Calm a = Triple-pure (fate meta) before a (λ _. ⊥)

      pub bind-Calm {ℓ κ} :
          {A : Type ℓ} {B : Type κ} (m : Exec A) (g : A → Exec B)
          → Calm before m
          → ((a : A) → Calm before (g a))
          → Calm before (m >>= g)
      bind-Calm m g k t =
          Triple-bind (fate meta) (λ _. before) (λ _. before) (λ _. ⊥) before m g k t

      pub attempt-Calm {ℓ} :
          {A : Type ℓ} (m : Exec A) → Keeps (fate meta) m → Calm before (attempt m)
      attempt-Calm m k =
          Triple-attempt (fate meta) before before (λ _. ⊥) m (Triple-Keeps (fate meta) before m k)

      logged_failure {ℓ} :
          (m : Exec (Unit {ℓ})) (h : Error → Exec (Unit {ℓ}))
          → Keeps (fate meta) m
          → ((e : Error) → Calm before (h e))
          → Calm before (or_else m h)
      logged_failure m h k t =
          Triple-or_else (fate meta) (λ _. before) before h (λ _. ⊥) before m
            (Triple-Keeps (fate meta) before m k) t

      mirror_metrics-Calm :
          (path : Text) (metrics : List (Text × Text)) → Calm before (mirror_metrics s path metrics)
      unfolding mirror_metrics
      mirror_metrics-Calm path [] = pure-Calm tt
      mirror_metrics-Calm path ((k, v) ∷ metrics) =
          bind-Calm _ _
            (logged_failure (set s path k v) _
              (set-Keeps (fate meta) fate-IgnoresAppends s path k v)
              λ e. log-Calm warn "write %s to job env: %v" (k ∷ s.error_text e ∷ []))
            λ _. mirror_metrics-Calm path metrics

      account_in-Calm :
          (n : ℕ) (elapsed : ℤ) (r : Result Text) → Calm before (account_in s n elapsed r)
      account_in-Calm n elapsed (ok path) =
          logged_failure (append_usage s path (accounted s n elapsed)) _
            (append_usage-Keeps path (accounted s n elapsed))
            λ e. log-Calm warn "append usage %s: %v" (path ∷ s.error_text e ∷ [])
      account_in-Calm n elapsed (err e) =
          log-Calm warn "resolve usage path: %v" (s.error_text e ∷ [])

      account-Calm : (n : ℕ) (elapsed : ℤ) → Calm before (account s n elapsed)
      unfolding account
      account-Calm n elapsed =
          bind-Calm _ _
            (attempt-Calm resolve_usage_path (resolve_spool_file-Keeps (fate meta) (codes "usage")))
            λ r. account_in-Calm n elapsed r

      mirror_and_account-Calm :
          (n : ℕ) (elapsed : ℤ) (r : Result Text) → Calm before (mirror_and_account s n elapsed r)
      mirror_and_account-Calm n elapsed (ok path) =
          Triple-deferring (fate meta) (λ _. before) (λ _. ⊥) before (close_job_env s path) _
            (close_job_env-Keeps path)
            (bind-Calm _ _ (mirror_metrics-Calm path (mirrored s n elapsed))
              λ _. account-Calm n elapsed)
      mirror_and_account-Calm n elapsed (err e) =
          bind-Calm _ _ (log-Calm warn "open job env: %v" (s.error_text e ∷ []))
            λ _. account-Calm n elapsed

      pub publish_summary-Calm : (n : ℕ) (elapsed : ℤ) → Calm before (publish_summary s n elapsed)
      unfolding publish_summary
      publish_summary-Calm n elapsed =
          bind-Calm _ _ (attempt-Calm (open_job_env s) open_job_env-Keeps)
            λ r. mirror_and_account-Calm n elapsed r
