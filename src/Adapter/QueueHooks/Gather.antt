-- ===== src/Adapter/QueueHooks/Gather.antt =====
-- spoolRoots of src/cmd/gridware-adapter/main.go asks every host for its spool directory.
use qpu_resource.Prelude.{
  Bool, true, false, ◌||◌, List, [], ◌∷◌, ◌≡◌, refl, sym, ◌∙◌, ap, ◌⊎◌, inl, inr, Option, none,
  some, Text, text_eq, text_eq_iff, contains, some_injective,
}
use mathlib.Core.Path.{subst}
use qpu_resource.Errors.{Result, ok, err, wrapf, reply, done}
use qpu_resource.Adapter.QConf.{
  HostConfiguration, GlobalConfiguration, Configuration, QConf, IsFaithful,
}
use qpu_resource.Adapter.Action.{pure, call, wrapping, attempt, ◌>>=◌, bind_ok, call_ok}
use qpu_resource.Adapter.QueueHooks.{add_root_if, global_root, host_roots, spool_roots}
use qpu_resource.Adapter.QueueHooks.Roots.{
  AreRoots, Lists, add_root-AreRoots, add_root-contains, add_root-Lists,
}

add_root_if-AreRoots :
    (roots : List Text) (o : Option Text) → AreRoots roots → AreRoots (add_root_if roots o)
add_root_if-AreRoots roots none h = h
add_root_if-AreRoots roots (some d) h = add_root-AreRoots roots d h

add_root_if-contains :
    (roots : List Text) (o : Option Text) (r : Text)
    → contains roots r ≡ true
    → contains (add_root_if roots o) r ≡ true
add_root_if-contains roots none r h = h
add_root_if-contains roots (some d) r h = add_root-contains roots d r h

or_cases : (a b : Bool) → (a || b) ≡ true → (a ≡ true) ⊎ (b ≡ true)
or_cases true b h = inl refl
or_cases false b h = inr h

contains_cases :
    (x : Text) (xs : List Text) (a : Text)
    → contains (x ∷ xs) a ≡ true
    → (x ≡ a) ⊎ (contains xs a ≡ true)
unfolding contains
contains_cases x xs a h = elim (or_cases (text_eq x a) (contains xs a) h) [
  | inl e ↦ inl ((text_eq_iff x a).0 e)
  | inr e ↦ inr e
]

ok_injective : {A : Type 0} {a b : A} → ok a ≡ ok b → a ≡ b
ok_injective h = cc h

module _ (qc : QConf) where
  open qc use {State, Rest, view}

  -- From the roots at hand to those that are returned.
  record Gathers (c : Configuration Rest) (hosts roots out : List Text) : Type 0 where
    are : AreRoots roots → AreRoots out
    keeps : (r : Text) → contains roots r ≡ true → contains out r ≡ true
    lists :
        (k : Text) (h : HostConfiguration Rest) (d : Text)
        → contains hosts k ≡ true
        → c.host_configuration k ≡ some h
        → h.execd_spool_dir ≡ some d
        → Lists out d

  nothing : (c : Configuration Rest) (roots : List Text) → Gathers c [] roots roots
  unfolding contains
  nothing c roots = record {
    are = λ h. h;
    keeps = λ r h. h;
    lists = λ k h d m at dir abs. absurd (cc m);
  }

  gather_more :
      (c : Configuration Rest) (host : Text) (hosts roots out : List Text)
      (cfg : HostConfiguration Rest)
      → c.host_configuration host ≡ some cfg
      → Gathers c hosts (add_root_if roots cfg.execd_spool_dir) out
      → Gathers c (host ∷ hosts) roots out
  gather_more c host hosts roots out cfg found g = record {
    are = λ h. g.are (add_root_if-AreRoots roots cfg.execd_spool_dir h);
    keeps = λ r h. g.keeps r (add_root_if-contains roots cfg.execd_spool_dir r h);
    lists = λ k h d m at dir abs. elim (contains_cases host hosts k m) [
      | inl same ↦
          let own : cfg.execd_spool_dir ≡ some d =
            ap (λ x. x.execd_spool_dir)
              (some_injective (sym found ∙ ap c.host_configuration same ∙ at))
            ∙ dir in
          g.keeps _
            (subst (λ o. Lists (add_root_if roots o) d) (sym own) (add_root-Lists roots d) abs)
      | inr other ↦ g.lists k h d other at dir abs
    ];
  }

  -- The directories are absolute, in their shortest form and different from one another; they
  -- hold the absolute one of each host that has one of its own, and the global one where it was shown.
  pub record HoldsRoots (s : State) (roots : List Text) : Type 0 where
    pub are : AreRoots roots
    pub of_hosts :
        (k : Text) (h : HostConfiguration Rest) (d : Text)
        → (view s).host_configuration k ≡ some h
        → h.execd_spool_dir ≡ some d
        → Lists roots d
    pub of_all :
        (g : GlobalConfiguration Rest)
        → (qc.show_global_configuration s).0 ≡ done (some g)
        → Lists roots g.execd_spool_dir

  module _ (faithful : IsFaithful qc) where
    host_roots-Gathers :
        (hosts roots : List Text) (s : State) {out : List Text}
        → (host_roots qc roots hosts s).0 ≡ ok out
        → (view (host_roots qc roots hosts s).1 ≡ view s) × Gathers (view s) hosts roots out
    unfolding host_roots pure call wrapping
    host_roots-Gathers [] roots s h =
        (refl, subst (Gathers (view s) [] roots) (ok_injective h) (nothing (view s) roots))
    host_roots-Gathers (host ∷ hosts) roots s {out} h =
        let (cfg, shown, step) =
          bind_ok
            (wrapping (wrapf "show host configuration %q: %w" (host ∷ []))
              (call (qc.show_host_configuration host)))
            (λ cfg. host_roots qc (add_root_if roots cfg.execd_spool_dir) hosts) s h in
        let t = (qc.show_host_configuration host s).1 in
        let (same, found) = faithful.shows_host_configuration host s in
        let (later, rest) =
          host_roots-Gathers hosts (add_root_if roots cfg.execd_spool_dir) t
            (sym (ap (λ p. p.0) step) ∙ h) in
        (
          ap (λ p. view p.1) step ∙ later ∙ same,
          gather_more (view s) host hosts roots out cfg
              (found cfg (call_ok _ (qc.show_host_configuration host) s shown))
              (subst (λ c. Gathers c hosts (add_root_if roots cfg.execd_spool_dir) out) same rest),
        )

    global_root-AreRoots :
        (r : Result (Option (GlobalConfiguration Rest))) → AreRoots (global_root qc r)
    global_root-AreRoots (ok none) = (tt, tt)
    global_root-AreRoots (ok (some g)) = add_root-AreRoots [] g.execd_spool_dir (tt, tt)
    global_root-AreRoots (err e) = (tt, tt)

    pub spool_roots-HoldsRoots :
        (s : State) {roots : List Text}
        → (spool_roots qc s).0 ≡ ok roots
        → (view (spool_roots qc s).1 ≡ view s) × HoldsRoots s roots
    unfolding spool_roots call wrapping attempt ◌>>=◌
    spool_roots-HoldsRoots s {roots} h =
        let r = reply (qc.show_global_configuration s).0 in
        let s1 = (qc.show_global_configuration s).1 in
        let (same1, _) = faithful.shows_global_configuration s in
        let s2 = (qc.show_host_configurations s1).1 in
        let (same2, all) = faithful.shows_host_configurations s1 in
        let (hosts, listed, step) =
          bind_ok
            (wrapping (wrapf "list host configurations: %w" []) (call qc.show_host_configurations))
            (host_roots qc (global_root qc r)) s1 h in
        let (later, g) =
          host_roots-Gathers hosts (global_root qc r) s2 (sym (ap (λ p. p.0) step) ∙ h) in
        (
          ap (λ p. view p.1) step ∙ later ∙ same2 ∙ same1,
          record {
            are = g.are (global_root-AreRoots r);
            of_hosts = λ k x d at dir.
                let at1 : (view s1).host_configuration k ≡ some x =
                  subst (λ c. c.host_configuration k ≡ some x) (sym same1) at in
                g.lists k x d (all hosts (call_ok _ qc.show_host_configurations s1 listed) k x at1)
                  (subst (λ c. c.host_configuration k ≡ some x) (sym same2) at1) dir;
            of_all = λ x shown abs. g.keeps _ (
                subst (λ y. Lists (global_root qc y) x.execd_spool_dir) (sym (ap reply shown))
                  (add_root-Lists [] x.execd_spool_dir) abs);
          },
        )
