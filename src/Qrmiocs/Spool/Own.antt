-- ===== src/Qrmiocs/Spool/Own.antt =====
-- What a spool directory that passes `CheckSpoolDir` is.
use qpu_resource.Prelude.{
  true, false, ◌∷◌, ◌++◌, ◌≡◌, ◌∙◌, ap, arith, Text, codes, text_eq_iff, inl, inr, append_assoc,
  Option-cases,
}
use qpu_resource.Strings.{cut_prefix, has_prefix, trim_prefix}
use qpu_resource.Strings.Split.{cut_prefix-eq-append, trim_prefix-append}
use qpu_resource.FilePath.{is_abs, clean, base, dir}
use qpu_resource.Machine.{Machine, FileInfo}
use qpu_resource.Errors.{ok, done, Reply-cases}
use qpu_resource.Qrmiocs.Sanitize.{has_dotdot}
use qpu_resource.Qrmiocs.Spool.{default_task, spool_shape, is_job_spool, check_spool_dir}

-- The job's own spool directory below this root: in clean form and without "..", named for the
-- job, in `active_jobs`, a directory, and reached from the root through no symbolic link.
pub record IsOwnSpool (m : Machine) (spool root job_id task_id : Text) : Type 0 where
  pub absolute : is_abs spool ≡ true
  pub in_clean_form : clean spool ≡ spool
  pub no_dotdot : has_dotdot spool ≡ false
  pub below : Text
  pub below_root : spool ≡ root ++ (b'/' ∷ below)
  pub named_for_job : base spool ≡ job_id ++ (b'.' ∷ default_task task_id)
  pub in_active_jobs : base (dir spool) ≡ codes "active_jobs"
  pub real_root : Text
  pub root_is_real : m.eval_symlinks root ≡ done real_root
  pub no_links : m.eval_symlinks spool ≡ done (real_root ++ (b'/' ∷ below))
  pub info : FileInfo
  pub status : m.lstat spool ≡ done info
  pub directory : info.is_dir ≡ true

module _ (m : Machine) (spool root job_id task_id : Text) where
  check_spool_dir_inv :
      check_spool_dir m spool root job_id task_id ≡ ok tt
      → (spool_shape spool root ≡ true)
        × (is_job_spool spool job_id (default_task task_id) ≡ true)
        × ((real : Text) × (m.eval_symlinks root ≡ done real)
            × (m.eval_symlinks spool ≡ done (real ++ trim_prefix root spool)))
        × ((info : FileInfo) × (m.lstat spool ≡ done info) × (info.is_dir ≡ true))
  unfolding check_spool_dir
  check_spool_dir_inv h = (ground arith, ground arith, resolves, status)
    where
      resolves :
          (real : Text) × (m.eval_symlinks root ≡ done real)
          × (m.eval_symlinks spool ≡ done (real ++ trim_prefix root spool))
      resolves = elim (Reply-cases (m.eval_symlinks root)) [
        | inl (real, e) ↦ elim (Reply-cases (m.eval_symlinks spool)) [
          | inl (real', e') ↦ (real, e, e' ∙ ap done ((text_eq_iff _ _).0 (ground (arith, e, e'))))
          | inr (x, e') ↦ absurd (ground (arith, e, e'))
        ]
        | inr (x, e) ↦ absurd (ground (arith, e))
      ]

      status : (info : FileInfo) × (m.lstat spool ≡ done info) × (info.is_dir ≡ true)
      status = elim (Reply-cases (m.lstat spool)) [
        | inl (info, e) ↦ (info, e, ground (arith, e))
        | inr (x, e) ↦ absurd (ground (arith, e))
      ]

  shape_below :
      has_prefix (root ++ codes "/") spool ≡ true
      → (below : Text) × (spool ≡ root ++ (b'/' ∷ below)) × (trim_prefix root spool ≡ b'/' ∷ below)
  shape_below h = elim (Option-cases (cut_prefix (root ++ codes "/") spool)) [
    | inl e ↦ absurd (cc (rw e at h))
    | inr (below, e) ↦
        let split : spool ≡ root ++ (b'/' ∷ below) =
          cut_prefix-eq-append (root ++ codes "/") spool e ∙ append_assoc root (codes "/") below in
        (below, split, ap (trim_prefix root) split ∙ trim_prefix-append root (b'/' ∷ below))
  ]

  -- A spool directory that passes the check is the job's own, as `IsOwnSpool` says.
  pub check_spool_dir-IsOwnSpool :
      check_spool_dir m spool root job_id task_id ≡ ok tt → IsOwnSpool m spool root job_id task_id
  unfolding spool_shape is_job_spool
  check_spool_dir-IsOwnSpool h =
      let (shape, named, (real, root_real, spool_real), (info, status, directory)) =
        check_spool_dir_inv h in
      let (below, split, rest) = shape_below (ground arith) in
      record {
        absolute = ground arith;
        in_clean_form = (text_eq_iff (clean spool) spool).0 (ground arith);
        no_dotdot = ground arith;
        below = below;
        below_root = split;
        named_for_job = (text_eq_iff (base spool) _).0 (ground arith);
        in_active_jobs = (text_eq_iff (base (dir spool)) _).0 (ground arith);
        real_root = real;
        root_is_real = root_real;
        no_links = spool_real ∙ ap (λ t. done (real ++ t)) rest;
        info = info;
        status = status;
        directory = directory;
      }
