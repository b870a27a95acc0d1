-- ===== src/Prolog/Tokens/Writing.antt =====
-- What `WriteAtomic` of src/internal/qrmiocs/metadata.go leaves under its path.
use qpu_resource.Prelude.{
  List, [], ◌∷◌, ◌≡◌, refl, some, Text, text_eq_refl, text_eq, false, arith, text_eq_iff, ◌∙◌, ap,
  Option,
}
use qpu_resource.Prelude.Int.{ℤ}
use qpu_resource.FilePath.{dir}
use qpu_resource.Errors.{wrapf, Result, ok, err, done}
use qpu_resource.Qrmiocs.Metadata.{Record, render_records}
use qpu_resource.Hooks.{System, Process, History, created_temp, wrote, closed, renamed}
use qpu_resource.Hooks.Exec.{call, wrapping, attempt, deferring}
use qpu_resource.Hooks.Keeps.{Keeps, Keeps-attempt, Keeps-call}
use qpu_resource.Hooks.Triple.{
  Triple, Triple-bind, Triple-Keeps, Triple-raise, Triple-or_else, Triple-call,
  Triple-deferring_kept, Triple-reply, Triple-fact, Triple-wrapping, Triple-weaken,
}
use qpu_resource.Hooks.MetadataFile.{
  close_file, remove_file, write_and_rename, write_atomic, metadata_failure,
}
use qpu_resource.Prolog.Tokens.{
  View, view, unreleased, last_resource, up_to_acquired, written, stored, metadata_in,
  MakesTemporaries,
}

differing : (a b : Text) → ¬ (a ≡ b) → text_eq a b ≡ false
differing a b h = ground (arith, text_eq_iff a b)

-- What stays the same while the metadata is written.
pub record Facts : Type 0 where
  pub tokens : List Text
  pub resource : Option (Text × ℤ)
  pub acquired_at : History

abbrev pub Fixed : Facts → View → Type 0
Fixed l v = (v.tokens ≡ l.tokens) × (v.resource ≡ l.resource) × (v.acquired_at ≡ l.acquired_at)

-- The text is in the temporary file, and then in place.
module _ (s : System) (l : Facts) where
  abbrev Wrote : Text → Text → View → Type 0
  Wrote tmp text v = Fixed l v × (v.temporary tmp ≡ some text)

  abbrev pub InPlace : Text → Text → View → Type 0
  InPlace target text v = Fixed l v × (v.metadata target ≡ some text)

  close_file-Keeps : (file : Text) → Keeps view (close_file s file)
  unfolding close_file view
  close_file-Keeps file = Keeps-call view (closed file) (λ h. s.close h file) λ r h. refl

  write-Triple :
      (tmp text : Text)
      → Triple view
          (Fixed l)
          (call (wrote tmp text) (λ h. s.write h tmp text))
          (λ _. Wrote tmp text)
          (Fixed l)
  unfolding view unreleased last_resource up_to_acquired written
  write-Triple tmp text =
      Triple-call view (λ _. Wrote tmp text) (Fixed l) (Fixed l) (wrote tmp text)
        (λ h. s.write h tmp text) (λ _ h b. (b, rw (text_eq_refl tmp) refl)) (λ x h b. b)

  rename-Triple :
      (tmp target text : Text)
      → Triple view
          (Wrote tmp text)
          (call (renamed tmp target) (λ h. s.rename h tmp target))
          (λ _. InPlace target text)
          (Fixed l)
  unfolding view unreleased last_resource up_to_acquired stored
  rename-Triple tmp target text =
      Triple-call view (λ _. InPlace target text) (Fixed l) (Wrote tmp text) (renamed tmp target)
        (λ h. s.rename h tmp target) (λ _ h (b, w). (b, rw (text_eq_refl target) w))
        (λ x h (b, w). b)

  close-Triple :
      (tmp text : Text)
      → Triple view (Wrote tmp text) (close_file s tmp) (λ _. Wrote tmp text) (Fixed l)
  unfolding close_file view unreleased last_resource up_to_acquired written
  close-Triple tmp text =
      Triple-call view (λ _. Wrote tmp text) (Fixed l) (Wrote tmp text) (closed tmp)
        (λ h. s.close h tmp) (λ _ h b. b) (λ x h (b, w). b)

  written_to_disk :
      (target tmp : Text) (r : Result Text)
      → Triple view
          (Fixed l)
          (write_and_rename s target tmp r)
          (λ _ v. (text : Text) × (r ≡ ok text) × InPlace target text v)
          (Fixed l)
  unfolding write_and_rename
  written_to_disk target tmp (err e) =
      Triple-bind view (λ _. Fixed l) _ (Fixed l) (Fixed l) (attempt (close_file s tmp)) _
        (Triple-Keeps view (Fixed l) (attempt (close_file s tmp))
          (Keeps-attempt view (close_file s tmp) (close_file-Keeps tmp)))
        λ _. Triple-raise view (Fixed l) e _
  written_to_disk target tmp (ok text) =
      Triple-bind view (λ _. Wrote tmp text) _ (Fixed l) (Fixed l) _ _
        (Triple-or_else view (λ _. Wrote tmp text) (Fixed l) _ (Fixed l) (Fixed l) _
          (write-Triple tmp text)
          λ e.
            Triple-bind view (λ _. Fixed l) _ (Fixed l) (Fixed l) (attempt (close_file s tmp)) _
              (Triple-Keeps view (Fixed l) (attempt (close_file s tmp))
                (Keeps-attempt view (close_file s tmp) (close_file-Keeps tmp)))
              λ _. Triple-raise view (Fixed l) (metadata_failure text e) _)
        λ _.
          Triple-bind view (λ _. Wrote tmp text) _ (Fixed l) (Wrote tmp text) _ _
            (Triple-wrapping view (λ _. Wrote tmp text) (Fixed l) (Wrote tmp text)
              (wrapf "close metadata: %w" []) (close_file s tmp) (close-Triple tmp text))
            λ _.
              Triple-wrapping view _ (Fixed l) (Wrote tmp text)
                (wrapf "rename metadata to %s: %w" (target ∷ [])) _
                (Triple-weaken view (λ _. InPlace target text) (Fixed l) (Wrote tmp text) _ _
                  (λ _ v i. (text, refl, i)) (rename-Triple tmp target text))

  -- The temporary file is another than the metadata file.
  created-Triple :
      (fresh : MakesTemporaries s) (spool : Text)
      → Triple view
          (Fixed l)
          (wrapping (wrapf "create temp file in %s: %w" (dir (metadata_in spool) ∷ [])) (
            call
              (created_temp (dir (metadata_in spool)))
              (λ h. s.create_temp h (dir (metadata_in spool)))))
          (λ tmp v. Fixed l v × (text_eq tmp (metadata_in spool) ≡ false))
          (Fixed l)
  unfolding view unreleased last_resource up_to_acquired
  created-Triple fresh spool =
      Triple-wrapping view (λ tmp v. Fixed l v × (text_eq tmp (metadata_in spool) ≡ false))
        (Fixed l) (Fixed l) _ _
        (Triple-reply view (λ tmp v. Fixed l v × (text_eq tmp (metadata_in spool) ≡ false))
          (Fixed l) (Fixed l) (created_temp (dir (metadata_in spool)))
          (λ h. s.create_temp h (dir (metadata_in spool)))
          (λ tmp h e b.
            (b, differing tmp (metadata_in spool) λ same. fresh h spool (e ∙ ap done same)))
          (λ x h b. b))

  -- What was put in place stays when the temporary file is removed.
  module _ (records : List Record) (target tmp : Text) (other : text_eq tmp target ≡ false) where
    abbrev Stored : View → Type 0
    Stored v = (text : Text) × (render_records records ≡ ok text) × InPlace target text v

    text_stays :
        (p : Process) → Stored (view p.history) → Stored (view (remove_file s tmp p).1.history)
    unfolding remove_file call view unreleased last_resource up_to_acquired stored
    text_stays p (text, rendered, (b, i)) = (text, rendered, (b, rw other i))

    facts_stay :
        (p : Process) → Fixed l (view p.history) → Fixed l (view (remove_file s tmp p).1.history)
    unfolding remove_file call view unreleased last_resource up_to_acquired
    facts_stay p b = b

    put_in_place :
        Triple view
          (Fixed l)
          (deferring (remove_file s tmp) (write_and_rename s target tmp (render_records records)))
          (λ _. Stored)
          (Fixed l)
    put_in_place =
        Triple-deferring_kept view (λ _. Stored) (Fixed l) (Fixed l) (remove_file s tmp) _
          (λ _ p i. text_stays p i) facts_stay (written_to_disk target tmp (render_records records))

  pub write_atomic-Triple :
      (fresh : MakesTemporaries s) (spool : Text) (records : List Record)
      → Triple view
          (Fixed l)
          (write_atomic s (metadata_in spool) records)
          (λ _ v.
            (text : Text) × (render_records records ≡ ok text) × InPlace (metadata_in spool) text v)
          (Fixed l)
  unfolding write_atomic
  write_atomic-Triple fresh spool records =
      Triple-bind view (λ tmp v. Fixed l v × (text_eq tmp (metadata_in spool) ≡ false)) _ (Fixed l)
        (Fixed l) _ _ (created-Triple fresh spool)
        λ tmp.
          Triple-fact view _ (Fixed l) (Fixed l) _
            λ other. put_in_place records (metadata_in spool) tmp other
