-- ===== src/Hooks/MetadataFile.antt =====
-- `WriteAtomic` of src/internal/qrmiocs/metadata.go and `PreserveFailedRelease` of paths.go.
use qpu_resource.Strings.{byte_size}
use qpu_resource.Prelude.{ℕ, ltb, List, [], ◌∷◌, ◌++◌, Text, codes, if◌then◌else◌}
use qpu_resource.FilePath.{dir, base, join_path}
use qpu_resource.Errors.{Error, wrapf, Result, ok, err, is_exist}
use qpu_resource.Qrmiocs.Metadata.{Record, render_records}
use qpu_resource.Hooks.{created_temp, wrote, closed, renamed, removed, made_dir, linked, System}
use qpu_resource.Hooks.Exec.{
  Exec, pure, raise, call, wrapping, attempt, ◌>>=◌, ◌>>◌, or_else, deferring,
}

abbrev buffer_size : ℕ
buffer_size = 4096

abbrev pub metadata_failure : Text → Error → Error
metadata_failure text e =
    if ltb buffer_size (byte_size text)
    then wrapf "write metadata: %w" [] e
    else wrapf "flush metadata: %w" [] e

module _ (s : System) where
  unfoldable pub close_file : Text → Exec (Unit {0})
  close_file path = call (closed path) (λ h. s.close h path)

  unfoldable pub remove_file : Text → Exec (Unit {0})
  remove_file path = call (removed path) (λ h. s.remove h path)

  -- What follows the creation of the temporary file. The text of a record is written at `Flush`, or
  -- already by `Fprintf` where it is larger than the writer's buffer.
  unfoldable pub write_and_rename : Text → Text → Result Text → Exec (Unit {0})
  unfolding ◌>>=◌ or_else close_file byte_size
  write_and_rename path tmp (err e) = do attempt (close_file tmp); raise e
  write_and_rename path tmp (ok text) = do
    or_else (call (wrote tmp text) (λ h. s.write h tmp text))
        λ e. do attempt (close_file tmp); raise (metadata_failure text e)
    wrapping (wrapf "close metadata: %w" []) (close_file tmp)
    wrapping (wrapf "rename metadata to %s: %w" (path ∷ []))
        (call (renamed tmp path) (λ h. s.rename h tmp path))

  unfoldable pub write_atomic : Text → List Record → Exec (Unit {0})
  unfolding ◌>>=◌ write_and_rename deferring remove_file render_records dir
  write_atomic path records = do
    tmp ←
        wrapping (wrapf "create temp file in %s: %w" (dir path ∷ []))
          (call (created_temp (dir path)) (λ h. s.create_temp h (dir path)))
    deferring (remove_file tmp) (write_and_rename path tmp (render_records records))

  -- The record of a failed release is kept outside the job's spool directory.
  unfoldable pub preserve_failed_release : Text → Exec Text
  unfolding ◌>>=◌ or_else remove_file dir base join_path is_exist
  preserve_failed_release path =
      let job_dir = dir path in
      let kept_dir = join_path (dir (dir job_dir)) (codes "qrmi_failed_releases") in
      let kept = join_path kept_dir (base job_dir ++ codes ".tsv") in
      do
        or_else (call (made_dir kept_dir) (λ h. s.mkdir h kept_dir))
            λ e. if is_exist e then pure tt else raise e
        call (linked path kept) (λ h. s.link h path kept)
        remove_file path
        pure kept
