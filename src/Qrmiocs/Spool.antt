-- ===== src/Qrmiocs/Spool.antt =====
-- `CheckSpoolDir` of src/internal/qrmiocs/sanitize.go.
pub mod Own
use qpu_resource.Prelude.{
  ℕ, Bool, true, false, not, ◌&&◌, ◌||◌, List, [], ◌∷◌, ◌++◌, Text, codes, text_eq, if◌then◌else◌,
  is_nil,
}
use qpu_resource.Strings.{has_prefix, cut_prefix, trim_prefix, contains_text}
use qpu_resource.FilePath.{is_abs, clean, base, dir}
use qpu_resource.Machine.{Machine, FileInfo}
use qpu_resource.Errors.{
  Error, errorf, wrapf, Result, ok, err, ◌>>=◌, ◌>>◌, guard, or_fail, Reply, done, fails, reply,
}
use qpu_resource.Qrmiocs.Sanitize.{has_dotdot}

abbrev pub default_task : Text → Text
default_task task_id =
    if is_nil task_id || text_eq task_id (codes "undefined") then codes "1" else task_id

unfoldable pub spool_shape : Text → Text → Bool
unfolding clean text_eq contains_text cut_prefix
spool_shape spool root =
    is_abs spool
    && text_eq (clean spool) spool
    && not (has_dotdot spool)
    && has_prefix (root ++ codes "/") spool

unfoldable pub is_job_spool : Text → Text → Text → Bool
unfolding base dir text_eq
is_job_spool spool job_id task =
    text_eq (base spool) (job_id ++ (codes "." ++ task))
    && text_eq (base (dir spool)) (codes "active_jobs")

abbrev pub lstat_is_dir : Reply FileInfo → Bool
lstat_is_dir (done info) = info.is_dir
lstat_is_dir (fails e) = false

module _ (m : Machine) where
  unfoldable pub check_spool_dir : Text → Text → Text → Text → Result (Unit {0})
  check_spool_dir spool root job_id task_id =
      let task = default_task task_id in
      do
        guard (spool_shape spool root) (errorf "invalid SGE_JOB_SPOOL_DIR %q" (spool ∷ []))
        guard (is_job_spool spool job_id task) (
            errorf "SGE_JOB_SPOOL_DIR %q is not the spool directory of job %s.%s"
              (spool ∷ job_id ∷ task ∷ []))
        resolved_root ← or_fail (reply (m.eval_symlinks root)) (wrapf "resolve spool root: %w" [])
        resolved ←
            or_fail (reply (m.eval_symlinks spool)) (wrapf "resolve SGE_JOB_SPOOL_DIR: %w" [])
        guard (text_eq resolved (resolved_root ++ trim_prefix root spool))
            (errorf "SGE_JOB_SPOOL_DIR %q contains a symbolic link" (spool ∷ []))
        guard (lstat_is_dir (m.lstat spool))
            (errorf "SGE_JOB_SPOOL_DIR %q is not a directory" (spool ∷ []))
        ok tt
