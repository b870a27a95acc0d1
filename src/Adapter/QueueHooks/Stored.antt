-- ===== src/Adapter/QueueHooks/Stored.antt =====
-- What the steps of configureQueueHooksDefault of src/cmd/gridware-adapter/main.go leave in the
-- scheduler where they succeed.
use qpu_resource.Prelude.{
  Bool, true, false, List, [], ◌∷◌, ◌≡◌, refl, sym, ◌∙◌, ap, inl, inr, Option, none, some, Text,
  if◌then◌else◌, contains, Bool-cases,
}
use mathlib.Core.Path.{subst}
use qpu_resource.FilePath.{is_abs}
use qpu_resource.Errors.{Error, ok, wrapf, done, guard}
use qpu_resource.Adapter.HookOptions.{Surroundings}
use qpu_resource.Adapter.QConf.{
  ClusterQueue, GlobalConfiguration, Configuration, QConf, IsFaithful, put,
}
use qpu_resource.Adapter.Action.{pure, raise, lift, call, wrapping, ◌>>=◌, bind_ok, call_ok}
use qpu_resource.Adapter.QueueHooks.{
  launcher_words, launcher_settings, spool_roots, store_hooks, with_hooks, with_pattern,
  add_pattern, ensure_global_reporting_pattern,
}
use qpu_resource.Adapter.QueueHooks.Gather.{HoldsRoots, spool_roots-HoldsRoots}
use qpu_resource.Adapter.QueueHooks.Settings.{root}

guard_ok : (b : Bool) (e : Error) {u : Unit {0}} → guard b e ≡ ok u → b ≡ true
guard_ok true e h = refl
guard_ok false e h = absurd (cc h)

ok_injective : {A : Type 0} {a b : A} → ok a ≡ ok b → a ≡ b
ok_injective h = cc h

module _ (qc : QConf) (faithful : IsFaithful qc) (w : Surroundings) where
  open qc use {State, Rest, view}

  -- The launcher's options come from the environment and from the roots that were gathered.
  pub launcher_settings_ok :
      (s : State) {words : List Text}
      → (launcher_settings qc w s).0 ≡ ok words
      → (roots : List Text) × (words ≡ launcher_words w roots)
        × (is_abs (root w) ≡ true)
        × (view (launcher_settings qc w s).1 ≡ view s)
        × HoldsRoots qc s roots
  unfolding launcher_settings lift pure
  launcher_settings_ok s h =
      let (u, passed, step1) =
        bind_ok (lift (guard (is_abs (root w)) _))
          (λ _. spool_roots qc >>= λ roots. pure (launcher_words w roots)) s h in
      let (roots, gathered, step2) =
        bind_ok (spool_roots qc) (λ roots. pure (launcher_words w roots)) s
          (sym (ap (λ p. p.0) step1) ∙ h) in
      let (same, holds) = spool_roots-HoldsRoots qc faithful s gathered in
      (
        roots,
        ok_injective (sym h ∙ ap (λ p. p.0) (step1 ∙ step2)),
        guard_ok (is_abs (root w)) _ passed,
        ap (λ p. view p.1) (step1 ∙ step2) ∙ same,
        holds,
      )

  pub store_hooks_ok :
      (queue : Text) (commands : Text × Text) (s : State) {u : Unit {0}}
      → (store_hooks qc queue commands s).0 ≡ ok u
      → (before : ClusterQueue Rest) × ((view s).cluster_queue queue ≡ some before)
        × (view (store_hooks qc queue commands s).1 ≡ record (view s) {
          cluster_queue =
              put queue (with_hooks qc queue commands.0 commands.1 before) (view s).cluster_queue;
        })
  unfolding wrapping call
  store_hooks_ok queue commands s h =
      let (before, shown, step) =
        bind_ok
          (wrapping (wrapf "show queue %q: %w" (queue ∷ [])) (call (qc.show_cluster_queue queue)))
          (λ cfg.
            wrapping (wrapf "modify queue %q hooks: %w" (queue ∷ [])) (
              call (qc.modify_cluster_queue queue (with_hooks qc queue commands.0 commands.1 cfg))))
          s h in
      let s1 = (qc.show_cluster_queue queue s).1 in
      let (same, found) = faithful.shows_cluster_queue queue s in
      let new = with_hooks qc queue commands.0 commands.1 before in
      let (good, _) = faithful.modifies_cluster_queue queue new s1 in
      (
        before,
        found before (call_ok _ (qc.show_cluster_queue queue) s shown),
        ap (λ p. view p.1) step
            ∙ good (call_ok _ (qc.modify_cluster_queue queue new) s1 (sym (ap (λ p. p.0) step) ∙ h))
            ∙ ap
                (λ (c : Configuration Rest). record c {
                  cluster_queue = put queue new c.cluster_queue;
                })
                same,
      )

  -- The global configuration with the pattern.
  abbrev pub reporting : Text → GlobalConfiguration Rest → GlobalConfiguration Rest
  reporting pattern g = if contains g.reporting_params pattern then g else with_pattern qc g pattern

  add_pattern_ok :
      (pattern : Text) (shown : Option (GlobalConfiguration Rest)) (s : State) {u : Unit {0}}
      → ((g : GlobalConfiguration Rest) → shown ≡ some g → (view s).global_configuration ≡ some g)
      → (add_pattern qc pattern shown s).0 ≡ ok u
      → (g : GlobalConfiguration Rest) × ((view s).global_configuration ≡ some g)
        × (view (add_pattern qc pattern shown s).1
            ≡ record (view s) { global_configuration = some (reporting pattern g) })
  unfolding wrapping call pure raise
  add_pattern_ok pattern none s found h = absurd (cc h)
  add_pattern_ok pattern (some g) s found h =
      elim (Bool-cases (contains g.reporting_params pattern)) [
        | inl e ↦
            (g, found g refl, rw e (λ i. record (view s) { global_configuration = found g refl i }))
        | inr e ↦ (
          g,
          found g refl,
          rw e (
              (faithful.modifies_global_config (with_pattern qc g pattern) s).0
                (call_ok _ (qc.modify_global_config (with_pattern qc g pattern)) s (rw e at h))),
        )
      ]

  pub ensure_pattern_ok :
      (pattern : Text) (s : State) {u : Unit {0}}
      → (ensure_global_reporting_pattern qc pattern s).0 ≡ ok u
      → (g : GlobalConfiguration Rest) × ((view s).global_configuration ≡ some g)
        × (view (ensure_global_reporting_pattern qc pattern s).1
            ≡ record (view s) { global_configuration = some (reporting pattern g) })
  unfolding ensure_global_reporting_pattern wrapping call
  ensure_pattern_ok pattern s h =
      let (shown, first, step) =
        bind_ok
          (wrapping (wrapf "show global configuration: %w" []) (call qc.show_global_configuration))
          (add_pattern qc pattern) s h in
      let s1 = (qc.show_global_configuration s).1 in
      let (same, found) = faithful.shows_global_configuration s in
      let answer = call_ok _ qc.show_global_configuration s first in
      let (g, at, ends) =
        add_pattern_ok pattern shown s1
          (λ g e.
            subst (λ c. c.global_configuration ≡ some g) (sym same) (found g (answer ∙ ap done e)))
          (sym (ap (λ p. p.0) step) ∙ h) in
      (
        g,
        subst (λ c. c.global_configuration ≡ some g) same at,
        ap (λ p. view p.1) step
            ∙ ends
            ∙ ap
                (λ (c : Configuration Rest). record c {
                  global_configuration = some (reporting pattern g);
                })
                same,
      )
