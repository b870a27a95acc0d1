-- ===== src/Epilog/Release.antt =====
-- `setReleaseEnv` and `releaseRecord` of src/cmd/qrmi-ocs-epilog-go/main.go.
use qpu_resource.Prelude.{
  List, [], ◌∷◌, ◌++◌, Option, none, some, Text, codes, if◌then◌else◌, is_nil,
}
use qpu_resource.Prelude.Int.{ℤ, pos}
use qpu_resource.Decimal.{format_int, parse_int}
use qpu_resource.Machine.{Machine, Account}
use qpu_resource.Errors.{errorf, wrapf, Result, ok, err, Reply, done, fails, reply, failed, or_fail}
use qpu_resource.Qrmiocs.Metadata.{Record}
use qpu_resource.Hooks.{
  loaded_config, closed_config, closed_def, created_resource, closed_resource, released, EnvVar,
  ResourceDef, Config, System,
}
use qpu_resource.Hooks.Exec.{Exec, pure, lift, call, wrapping, ◌>>=◌, ◌>>◌, deferring, note}
use qpu_resource.Hooks.JobEnv.{set_process_env}
use qpu_resource.Prolog.Scheduler.{scheduler_job_id}

-- `hookConfig`.
pub record EpilogConfig : Type 0 where
  pub config_path : Text
  pub log_level : Text
  pub job_owner : Text

abbrev uid_of_account : Text → Text → Option ℤ → Result ℤ
uid_of_account uid owner none =
    err (errorf "invalid uid %q for scheduler job owner %q" (uid ∷ owner ∷ []))
uid_of_account uid owner (some z) = ok z

abbrev uid_of_reply : Text → Reply Account → Result ℤ
uid_of_reply owner (fails x) =
    err (wrapf "look up scheduler job owner %q: %w" (owner ∷ []) (failed x))
uid_of_reply owner (done account) = uid_of_account account.uid owner (parse_int account.uid)

-- The uid of `setReleaseEnv`. Unlike the prolog it takes a negative one.
unfoldable pub release_uid : Machine → Text → Result ℤ
unfolding parse_int
release_uid m owner =
    if is_nil owner then ok (pos m.real_uid) else uid_of_reply owner (m.lookup_user owner)

-- The pairs of the definition's environment, with an empty key too.
unfoldable pub definition_pairs : Text → List EnvVar → List (Text × Text)
definition_pairs name [] = []
definition_pairs name (e ∷ es) = (name ++ (b'_' ∷ e.key), e.value) ∷ definition_pairs name es

abbrev pub release_pairs : ℤ → Text → Record → ResourceDef → List (Text × Text)
release_pairs uid job_id r d =
    (codes "QRMI_JOB_UID", format_int uid)
    ∷ (codes "QRMI_JOB_ID", job_id)
    ∷ (r.name ++ codes "_QRMI_JOB_ACQUISITION_TOKEN", r.token)
    ∷ definition_pairs r.name d.environments

unfoldable pub setenv_all : List (Text × Text) → Exec (Unit {0})
setenv_all [] = pure tt
setenv_all ((k, v) ∷ pairs) = do
  wrapping (wrapf "setenv %s: %w" (k ∷ [])) (set_process_env k v)
  setenv_all pairs

module _ (s : System) (cfg : EpilogConfig) where
  unfoldable pub set_env_of_definition : Record → ResourceDef → Exec (Unit {0})
  set_env_of_definition r d = do
    uid ← lift (release_uid s.machine cfg.job_owner)
    job_id ← scheduler_job_id
    setenv_all (release_pairs uid job_id r d)

  unfoldable pub set_env_of_config : Record → Config → Exec (Unit {0})
  set_env_of_config r config = do
    d ← lift (
        or_fail (reply (config r.name))
          (wrapf "resource %q not in %s: %w" (r.name ∷ cfg.config_path ∷ [])))
    deferring (note closed_def) (set_env_of_definition r d)

  -- `setReleaseEnv`.
  unfoldable pub set_release_env : Record → Exec (Unit {0})
  set_release_env r = do
    config ←
        wrapping (wrapf "load qrmi config %s: %w" (cfg.config_path ∷ []))
          (call (λ _. loaded_config cfg.config_path) (λ h. s.load_config h cfg.config_path))
    deferring (note closed_config) (set_env_of_config r config)

  unfoldable pub release : Record → Exec (Unit {0})
  release r =
      wrapping (wrapf "qrmi_resource_release(%s): %w" (r.name ∷ []))
        (call (released r.token) (λ h. s.release h r.token))

  -- `releaseRecord`.
  unfoldable pub release_record : Record → Exec (Unit {0})
  release_record r = do
    set_release_env r
    wrapping (wrapf "qrmi_resource_new(%s): %w" (r.name ∷ []))
        (call (created_resource r.name r.kind) (λ h. s.new_resource h r.name r.kind))
    deferring (note closed_resource) (release r)
