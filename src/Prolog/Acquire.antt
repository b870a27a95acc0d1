-- ===== src/Prolog/Acquire.antt =====
-- Exporting to the job, reporting an error to it, and keeping the acquired token: the end of
-- `runWithConfig` of src/cmd/qrmi-ocs-prolog-go/main.go, with the functions that it calls.
use qpu_resource.Prelude.{List, [], ◌∷◌, ◌++◌, Text, codes, if◌then◌else◌, is_nil}
use qpu_resource.Prelude.Int.{ℤ}
use qpu_resource.Decimal.{format_int}
use qpu_resource.Errors.{Error, wrapf, ok}
use qpu_resource.Qrmiocs.Metadata.{Record}
use qpu_resource.Hooks.{released, info, warn, EnvVar, ResourceDef, System}
use qpu_resource.Hooks.Exec.{Exec, raise, call, attempt, ◌>>=◌, ◌>>◌, or_else, log}
use qpu_resource.Hooks.JobEnv.{
  set, set_pairs, set_plugin_error, resolve_metadata_path, prolog_status_key,
}
use qpu_resource.Hooks.MetadataFile.{write_atomic}

module _ (s : System) where
  -- `exportBackendEnv`: the pairs of the loop.
  unfoldable pub backend_pairs : Text → List EnvVar → List (Text × Text)
  backend_pairs backend [] = []
  backend_pairs backend (e ∷ es) =
      let rest = backend_pairs backend es in
      if is_nil e.key then rest else (backend ++ (b'_' ∷ e.key), e.value) ∷ rest

  -- `exportRuntimeEnv`.
  abbrev pub runtime_pairs : Text → Text → Text → List (Text × Text)
  runtime_pairs backend token type_str =
      (backend ++ codes "_QRMI_JOB_ACQUISITION_TOKEN", token)
      ∷ (codes "QRMI_JOB_QPU_RESOURCES", backend)
      ∷ (codes "QRMI_JOB_QPU_TYPES", type_str)
      ∷ (codes "qrmi_resources", backend)
      ∷ (codes "qrmi_resource_types", type_str)
      ∷ (codes "qrmi_acquired_count", codes "1")
      ∷ []

  -- Empty values are passed over.
  unfoldable pub given_pairs : List (Text × Text) → List (Text × Text)
  given_pairs [] = []
  given_pairs ((k, v) ∷ pairs) =
      let rest = given_pairs pairs in if is_nil v then rest else (k, v) ∷ rest

  -- `reportError`: the job and the epilog see the error, and it is returned.
  unfoldable pub report_error {ℓ} : {A : Type ℓ} → Text → Error → Exec A
  unfolding ◌>>=◌ or_else set_plugin_error log
  report_error path e = do
    or_else (set_plugin_error s path (s.error_text e))
        λ x. log warn "failed to record plugin error: %v" (s.error_text x ∷ [])
    raise e

  -- `return reportError(jobEnv, …)` where an action fails.
  abbrev pub reporting {ℓ} : {A : Type ℓ} → Text → (Error → Error) → Exec A → Exec A
  reporting path f m = or_else m (λ e. report_error path (f e))

  unfoldable pub release_token : Text → Exec (Unit {0})
  release_token token = call (released token) (λ h. s.release h token)

  -- `_ = resource.Release(token)` before the error is reported.
  abbrev pub releasing {ℓ} : {A : Type ℓ} → Text → Text → (Error → Error) → Exec A → Exec A
  releasing path token f m =
      or_else m λ e. do attempt (release_token token); report_error path (f e)

  abbrev pub type_text : ResourceDef → Text
  type_text d = if is_nil d.type_string then format_int d.kind else d.type_string

  abbrev pub acquisition : Text → ResourceDef → Text → ℤ → Record
  acquisition backend d token epoch = record {
    name = backend;
    kind = d.kind;
    token = token;
    acquired_epoch = epoch;
  }

  -- `runWithConfig` once the token is acquired.
  unfoldable pub keep_token : Text → Text → ResourceDef → Text → Exec (Unit {0})
  keep_token path backend d token = do
    epoch ← (λ p. (ok (s.now p.history), p))
    releasing path token (wrapf "export runtime env: %w" [])
        (set_pairs s path (runtime_pairs backend token (type_text d)))
    meta_path ← releasing path token (wrapf "resolve metadata path: %w" []) resolve_metadata_path
    releasing path token (wrapf "write metadata %s: %w" (meta_path ∷ []))
        (write_atomic s meta_path (acquisition backend d token epoch ∷ []))
    releasing path token (wrapf "export prolog status: %w" [])
        (set s path (prolog_status_key s) (codes "success"))
    log info "acquired 1 backend resource(s): %s" (backend ∷ [])
