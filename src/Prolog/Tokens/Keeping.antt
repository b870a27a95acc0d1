-- ===== src/Prolog/Tokens/Keeping.antt =====
-- From an acquired token to its stored record: on an error the token is given back.
use qpu_resource.Prelude.{List, [], ◌∷◌, ◌≡◌, refl, sym, ap, some, Text, codes, is_nil}
use mathlib.Core.Path.{subst}
use qpu_resource.FilePath.{join_path}
use qpu_resource.Errors.{Error, errorf, wrapf, ok}
use qpu_resource.Qrmiocs.Metadata.{Record, render_records}
use qpu_resource.Hooks.{System, Process, History, ResourceDef, info}
use qpu_resource.Hooks.Exec.{Exec, pure, raise, ◌>>=◌, ◌>>◌, getenv, log}
use qpu_resource.Hooks.Keeps.{Keeps, Keeps-getenv}
use qpu_resource.Hooks.Triple.{
  Triple, Outcome, Triple-bind, Triple-Keeps, Triple-raise, Triple-if, Triple-fact, Triple-worse,
}
use qpu_resource.Hooks.JobEnv.{set, resolve_spool_file, prolog_status_key}
use qpu_resource.Hooks.JobEnv.Quiet.{set_pairs-Keeps, set-Keeps}
use qpu_resource.Prolog.Acquire.{releasing, runtime_pairs, type_text, acquisition, keep_token}
use qpu_resource.Prolog.Tokens.{View, view, Holds, Made, Kept, MakesTemporaries, metadata_in}
use qpu_resource.Prolog.Tokens.Held.{view-IgnoresAppends}
use qpu_resource.Prolog.Tokens.Giving.{releasing-Triple}
use qpu_resource.Prolog.Tokens.Writing.{Facts, Fixed, InPlace, write_atomic-Triple}
use qpu_resource.Hooks.MetadataFile.{write_atomic}

-- The name of a file of the job's spool directory, without a change of the tokens.
resolve_spool_file-Triple :
    (before : View → Type 0) (name : Text)
    → Triple view before
        (resolve_spool_file name)
        (λ path v. before v × ((spool : Text) × (path ≡ join_path spool name)))
        before
unfolding resolve_spool_file
resolve_spool_file-Triple before name =
    Triple-bind view (λ _. before) _ before before (getenv (codes "SGE_JOB_SPOOL_DIR")) _
      (Triple-Keeps view before _ (Keeps-getenv view (codes "SGE_JOB_SPOOL_DIR")))
      λ spool.
        Triple-if view before (is_nil spool) (raise (errorf "SGE_JOB_SPOOL_DIR is unset" []))
          (pure (join_path spool name)) _ before
          (Triple-raise view before (errorf "SGE_JOB_SPOOL_DIR is unset" []) _)
          (record { at = λ p h. (h, (spool, refl)) })

module _ (s : System) (fresh : MakesTemporaries s) (path backend : Text) (d : ResourceDef)
    (ts : List Text) where
  abbrev Spooled : Text → Type 0
  Spooled target = (spool : Text) × (target ≡ metadata_in spool)

  module _ (token : Text) (at : History) where
    -- The token is held, and nothing else changed since it was acquired.
    abbrev facts : Facts
    facts = record { tokens = token ∷ ts; resource = some (backend, d.kind); acquired_at = at }

    abbrev record_at : Record
    record_at = acquisition s backend d token (s.now at)

    kept :
        (spool text : Text) (v : View)
        → render_records (record_at ∷ []) ≡ ok text
        → InPlace s facts (metadata_in spool) text v
        → Kept s ts v
    kept spool text v rendered ((b, r, a), i) = record {
      acquisition = record_at;
      holds = b;
      resource = r;
      epoch = ap s.now (sym a);
      spool = spool;
      text = text;
      rendered = rendered;
      in_place = i;
    }

    -- A step that keeps the view: on an error the token is released.
    steady {ℓ} :
        {A : Type ℓ} (f : Error → Error) (m : Exec A)
        → Keeps view m
        → Triple view (Fixed facts) (releasing s path token f m) (λ _. Fixed facts) (Holds ts)
    steady f m k =
        releasing-Triple s path ts token (Fixed facts) (λ _. Fixed facts) f m
          (Triple-worse view _ (Fixed facts) (Fixed facts) _ (Holds (token ∷ ts)) (λ v (b, _, _). b)
            (Triple-Keeps view (Fixed facts) m k))

    -- The end of `keep_token`, with the record in place.
    succeed :
        (spool text : Text)
        → render_records (record_at ∷ []) ≡ ok text
        → Triple view
            (InPlace s facts (metadata_in spool) text)
            (releasing s path token
                (wrapf "export prolog status: %w" [])
                (set s path (prolog_status_key s) (codes "success"))
              >> log info "acquired 1 backend resource(s): %s" (backend ∷ []))
            (λ _. Kept s ts)
            (Holds ts)
    unfolding view log
    succeed spool text rendered =
        Triple-bind view (λ _. InPlace s facts (metadata_in spool) text) (λ _. Kept s ts) (Holds ts)
          (InPlace s facts (metadata_in spool) text) _ _
          (releasing-Triple s path ts token (InPlace s facts (metadata_in spool) text)
            (λ _. InPlace s facts (metadata_in spool) text) (wrapf "export prolog status: %w" []) _
            (Triple-worse view _ (InPlace s facts (metadata_in spool) text)
              (InPlace s facts (metadata_in spool) text) _ (Holds (token ∷ ts))
              (λ v ((b, _, _), _). b)
              (Triple-Keeps view (InPlace s facts (metadata_in spool) text) _ (
                set-Keeps view view-IgnoresAppends s path (prolog_status_key s)
                  (codes "success")))))
          λ _. record { at = λ p i. kept spool text (view p.history) rendered i }

    stored_at :
        (target : Text)
        → Spooled target
        → Triple view
            (Fixed facts)
            (releasing s path token
                (wrapf "write metadata %s: %w" (target ∷ []))
                (write_atomic s target (record_at ∷ []))
              >>= λ _.
                  releasing s path token
                    (wrapf "export prolog status: %w" [])
                    (set s path (prolog_status_key s) (codes "success"))
                  >> log info "acquired 1 backend resource(s): %s" (backend ∷ []))
            (λ _. Kept s ts)
            (Holds ts)
    stored_at target (spool, e) =
        subst
          (λ target.
            Triple view (Fixed facts)
              (releasing s path token (wrapf "write metadata %s: %w" (target ∷ []))
                  (write_atomic s target (record_at ∷ []))
                >>= λ _.
                    releasing s path token (wrapf "export prolog status: %w" [])
                      (set s path (prolog_status_key s) (codes "success"))
                    >> log info "acquired 1 backend resource(s): %s" (backend ∷ []))
              (λ _. Kept s ts) (Holds ts))
          (sym e)
          (Triple-bind view
            (λ _ v.
              (text : Text) × (render_records (record_at ∷ []) ≡ ok text)
              × InPlace s facts (metadata_in spool) text v)
            (λ _. Kept s ts) (Holds ts) (Fixed facts) _ _
            (releasing-Triple s path ts token (Fixed facts) _
              (wrapf "write metadata %s: %w" (metadata_in spool ∷ [])) _
              (Triple-worse view _ (Fixed facts) (Fixed facts) _ (Holds (token ∷ ts))
                (λ v (b, _, _). b) (write_atomic-Triple s facts fresh spool (record_at ∷ []))))
            λ _. record { at = λ p (text, rendered, i). (succeed spool text rendered).at p i })

    keep_rest :
        (p : Process)
        → Fixed facts (view p.history)
        → s.now p.history ≡ s.now at
        → Outcome view (λ _. Kept s ts) (Holds ts) (keep_token s path backend d token p)
    unfolding keep_token ◌>>=◌
    keep_rest p b clock = rw clock (
        (Triple-bind view (λ _. Fixed facts) (λ _. Kept s ts) (Holds ts) (Fixed facts) _ _
            (steady (wrapf "export runtime env: %w" []) _ (
              set_pairs-Keeps view view-IgnoresAppends s path
                (runtime_pairs s backend token (type_text s d))))
            λ _.
              Triple-bind view (λ target v. Fixed facts v × Spooled target) (λ _. Kept s ts)
                (Holds ts) (Fixed facts) _ _
                (releasing-Triple s path ts token (Fixed facts) _
                  (wrapf "resolve metadata path: %w" []) _
                  (Triple-worse view _ (Fixed facts) (Fixed facts) _ (Holds (token ∷ ts))
                    (λ v (b, _, _). b)
                    (resolve_spool_file-Triple (Fixed facts) (codes "qrmi_ocs_acquired.tsv"))))
                λ target.
                  Triple-fact view (λ _. Kept s ts) (Holds ts) (Fixed facts) _
                    λ spooled. stored_at target spooled).at
          p b)

  -- From the moment at which the token is acquired.
  pub keep_token_from :
      (token : Text) (p : Process)
      → Made (token ∷ ts) backend d.kind (view p.history)
      → (view p.history).acquired_at ≡ p.history
      → Outcome view (λ _. Kept s ts) (Holds ts) (keep_token s path backend d token p)
  keep_token_from token p (b, r) now = keep_rest token p.history p (b, r, now) refl
