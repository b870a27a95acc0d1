-- ===== src/Epilog/Fate/Release.antt =====
-- The release of a token and what then becomes of the metadata file.
use Prim.{⊥}
use qpu_resource.Prelude.{
  ℕ, zero, suc, List, [], ◌∷◌, ◌≡◌, refl, ap, Text, true, false, inl, inr, text_eq_refl,
}
use qpu_resource.Errors.{wrapf, Result, ok, err, is_not_exist, is_exist}
use qpu_resource.Qrmiocs.Metadata.{Record}
use qpu_resource.Hooks.{System, released, removed, linked, made_dir, closed_resource, warn}
use qpu_resource.Hooks.Exec.{pure, raise, call, note}
use qpu_resource.Hooks.Keeps.{
  Keeps, Keeps-pure, Keeps-note, Keeps-call, Keeps-if, Keeps-or_else, Keeps-raise, Keeps-wrapping,
}
use qpu_resource.Hooks.Triple.{
  Triple, Triple-bind, Triple-Keeps, Triple-call, Triple-deferring, Triple-if, Triple-weaken,
  Triple-worse, Triple-wrapping, Triple-attempt, Triple-pure,
}
use qpu_resource.Hooks.MetadataFile.{remove_file, preserve_failed_release}
use qpu_resource.Epilog.Release.{EpilogConfig, release, release_record}
use qpu_resource.Epilog.Run.{removal, preserved, settle}
use qpu_resource.Epilog.Fate.{
  Fate, fate, asked_back, secured, record_lost, kept_path, Intact, Asked,
}
use qpu_resource.Epilog.Fate.Quiet.{set_release_env-Keeps, created-Keeps, log-Calm, pure-Calm, Calm}

module _ (meta : Text) where
  module _ (s : System) (cfg : EpilogConfig) (ts : List Text) where
    module _ (rec : Record) where
      abbrev Back : Fate → Type 0
      Back v = (v.asked ≡ rec.token ∷ ts) × (v.lost ≡ false)

      release-Triple :
          Triple
            (fate meta)
            (Intact ts)
            (release s cfg rec)
            (λ _ v. Back v × (v.secure ≡ true))
            Back
      unfolding release fate asked_back secured record_lost
      release-Triple =
          Triple-wrapping (fate meta) (λ _ v. Back v × (v.secure ≡ true)) Back (Intact ts) _ _
            (Triple-call (fate meta) (λ _ v. Back v × (v.secure ≡ true)) Back (Intact ts)
              (released rec.token) (λ h. s.release h rec.token)
              (λ _ h (a, l). ((ap (◌∷◌ rec.token) a, l), refl))
              (λ x h (a, l). (ap (◌∷◌ rec.token) a, l)))

      closed_resource-Keeps : Keeps (fate meta) (note closed_resource)
      unfolding fate
      closed_resource-Keeps = Keeps-note (fate meta) closed_resource λ h. refl

      pub release_record-Triple :
          Triple
            (fate meta)
            (Intact ts)
            (release_record s cfg rec)
            (λ _ v. Asked ts (ok rec) v × (v.secure ≡ true))
            (Asked ts (ok rec))
      unfolding release_record
      release_record-Triple =
          Triple-worse (fate meta) _ (Asked ts (ok rec)) (Intact ts) _ (Asked ts (ok rec))
            (λ v a. a)
            (Triple-bind (fate meta) (λ _. Intact ts) _ (Asked ts (ok rec)) (Intact ts) _ _
              (Triple-worse (fate meta) (λ _. Intact ts) (Intact ts) (Intact ts) _
                (Asked ts (ok rec)) (λ v (a, l). (inl a, l))
                (Triple-Keeps (fate meta) (Intact ts) _ (set_release_env-Keeps meta s cfg rec)))
              λ _.
                Triple-bind (fate meta) (λ _. Intact ts) _ (Asked ts (ok rec)) (Intact ts) _ _
                  (Triple-worse (fate meta) (λ _. Intact ts) (Intact ts) (Intact ts) _
                    (Asked ts (ok rec)) (λ v (a, l). (inl a, l))
                    (Triple-Keeps (fate meta) (Intact ts) _ (
                      Keeps-wrapping (fate meta) (wrapf "qrmi_resource_new(%s): %w" (rec.name ∷ []))
                        _ (created-Keeps meta s rec.name rec.kind))))
                  λ _.
                    Triple-deferring (fate meta) _ (Asked ts (ok rec)) (Intact ts)
                      (note closed_resource) _ closed_resource-Keeps
                      (Triple-worse (fate meta) _ Back (Intact ts) _ (Asked ts (ok rec))
                        (λ v (a, l). (inr (rec, refl, a), l))
                        (Triple-weaken (fate meta) (λ _ v. Back v × (v.secure ≡ true)) Back
                          (Intact ts) _ _ (λ _ v ((a, l), e). ((inr (rec, refl, a), l), e))
                          release-Triple)))

  module _ (s : System) (ts : List Text) (r : Result Record) where
    abbrev AskedSafely : Fate → Type 0
    AskedSafely v = Asked ts r v × (v.secure ≡ true)

    remove_file-Triple :
        Triple (fate meta) AskedSafely (remove_file s meta) (λ _. Asked ts r) (Asked ts r)
    unfolding remove_file fate asked_back record_lost
    remove_file-Triple =
        Triple-call (fate meta) (λ _. Asked ts r) (Asked ts r) AskedSafely (removed meta)
          (λ h. s.remove h meta) (λ _ h ((a, l), e). (a, rw (e, text_eq_refl meta) l))
          (λ x h ((a, l), e). (a, rw (e, text_eq_refl meta) l))

    made-Keeps : (path : Text) → Keeps (fate meta) (call (made_dir path) (λ h. s.mkdir h path))
    unfolding fate
    made-Keeps path = Keeps-call (fate meta) (made_dir path) (λ h. s.mkdir h path) λ r h. refl

    link-Triple :
        Triple
          (fate meta)
          (Asked ts r)
          (call (linked meta (kept_path meta)) (λ h. s.link h meta (kept_path meta)))
          (λ _. AskedSafely)
          (Asked ts r)
    unfolding fate asked_back secured record_lost
    link-Triple =
        Triple-call (fate meta) (λ _. AskedSafely) (Asked ts r) (Asked ts r)
          (linked meta (kept_path meta)) (λ h. s.link h meta (kept_path meta))
          (λ _ h a. (a, rw (text_eq_refl meta, text_eq_refl (kept_path meta)) refl)) (λ x h a. a)

    preserve-Triple :
        Triple
          (fate meta)
          (Asked ts r)
          (preserve_failed_release s meta)
          (λ _. Asked ts r)
          (Asked ts r)
    unfolding preserve_failed_release
    preserve-Triple =
        Triple-bind (fate meta) (λ _. Asked ts r) (λ _. Asked ts r) (Asked ts r) (Asked ts r) _ _
          (Triple-Keeps (fate meta) (Asked ts r) _ (
            Keeps-or_else (fate meta) _ _ (made-Keeps _) λ e.
              Keeps-if (fate meta) (is_exist e) (pure tt) (raise e) (Keeps-pure (fate meta) tt)
                (Keeps-raise (fate meta) e)))
          λ _.
            Triple-bind (fate meta) (λ _. AskedSafely) (λ _. Asked ts r) (Asked ts r) (Asked ts r) _
              _ link-Triple
              λ _.
                Triple-bind (fate meta) (λ _. Asked ts r) (λ _. Asked ts r) (Asked ts r) AskedSafely
                  _ _ remove_file-Triple λ _. Triple-pure (fate meta) (Asked ts r) _ (Asked ts r)

    -- A release that did not fail is secure.
    abbrev pub Safe : ℕ → Fate → Type 0
    Safe zero v = AskedSafely v
    Safe (suc _) v = Asked ts r v

    removal-Calm :
        (path : Text) (x : Result (Unit {0})) → Calm meta s (Asked ts r) (removal s path x)
    removal-Calm path (ok _) = pure-Calm meta s (Asked ts r) tt
    removal-Calm path (err e) =
        Triple-if (fate meta) (Asked ts r) (is_not_exist e) (pure tt) _ (λ _. Asked ts r) (λ _. ⊥)
          (pure-Calm meta s (Asked ts r) tt)
          (log-Calm meta s (Asked ts r) warn "failed to remove metadata file %s: %v"
            (path ∷ s.error_text e ∷ []))

    preserved-Calm : (path : Text) (x : Result Text) → Calm meta s (Asked ts r) (preserved s path x)
    preserved-Calm path (ok kept) =
        log-Calm meta s (Asked ts r) warn "moved metadata for administrator recovery to %s"
          (kept ∷ [])
    preserved-Calm path (err e) =
        log-Calm meta s (Asked ts r) warn
          "failed to move metadata file %s out of the job spool for administrator recovery: %v"
          (path ∷ s.error_text e ∷ [])

    pub settle-Triple :
        (n : ℕ) → Triple (fate meta) (Safe n) (settle s meta n) (λ _. Asked ts r) (λ _. ⊥)
    unfolding settle
    settle-Triple zero =
        Triple-bind (fate meta) (λ _. Asked ts r) (λ _. Asked ts r) (λ _. ⊥) AskedSafely _ _
          (Triple-attempt (fate meta) (Asked ts r) AskedSafely (λ _. ⊥) (remove_file s meta)
            remove_file-Triple)
          λ x. removal-Calm meta x
    settle-Triple (suc n) =
        Triple-bind (fate meta) (λ _. Asked ts r) (λ _. Asked ts r) (λ _. ⊥) (Asked ts r) _ _
          (Triple-attempt (fate meta) (Asked ts r) (Asked ts r) (λ _. ⊥)
            (preserve_failed_release s meta) preserve-Triple)
          λ x. preserved-Calm meta x
