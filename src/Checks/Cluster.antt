-- ===== src/Checks/Cluster.antt =====
-- A scheduler that keeps what it is told and answers every call that it can. Only one of its hosts,
-- w1, can have a configuration of its own.
use qpu_resource.Prelude.{
  true, [], ◌∷◌, ◌≡◌, refl, inl, inr, arith, Option, none, some, Text, codes, text_eq, text_eq_iff,
  if◌then◌else◌, contains, Bool-cases,
}
use mathlib.Core.Path.{fun_ext, subst}
use qpu_resource.Errors.{Reply, done, fails, not_exist, exist, Failure}
use qpu_resource.Adapter.QConf.{
  ComplexEntry, HostConfiguration, Configuration, QConf, IsFaithful, IsShow, IsChange, put,
}

abbrev pub Stored : Type 0
Stored = Configuration (Unit {0})

abbrev w1 : Text
w1 = codes "w1"

-- What is stored, but for the configurations of hosts, and the one of w1.
pub record Store : Type 0 where
  pub stored : Stored
  pub of_w1 : Option (HostConfiguration (Unit {0}))

abbrev hosts_of : Store → Text → Option (HostConfiguration (Unit {0}))
hosts_of s k = if text_eq w1 k then s.of_w1 else none

abbrev view : Store → Stored
view s = record s.stored { host_configuration = hosts_of s }

abbrev or_not_exist : {A : Type 0} → Option A → Reply A
or_not_exist none = fails not_exist
or_not_exist (some a) = done a

abbrev showing : {A : Type 0} → (Stored → Option A) → Store → Reply A × Store
showing find s = (or_not_exist (find (view s)), s)

abbrev adding : {A : Type 0} → Option A → Store → Store → Reply (Unit {0}) × Store
adding none s s' = (done tt, s')
adding (some a) s s' = (fails exist, s)

abbrev storing : (Stored → Stored) → Store → Store
storing f s = record s { stored = f s.stored }

abbrev modify_w1 : Text → HostConfiguration (Unit {0}) → Store → Reply (Unit {0}) × Store
modify_w1 k h s =
    if text_eq w1 k then (done tt, record s { of_w1 = some h }) else (fails not_exist, s)

abbrev pub client : QConf
client = record {
  State = Store;
  Rest = Unit {0};
  no_rest = tt;
  view = view;
  error_text = λ e. codes "e";
  show_complex_entry = λ k. showing (λ c. c.complex_entry k);
  add_complex_entry = λ e s.
      adding (s.stored.complex_entry e.name) s
        (storing (λ c. record c { complex_entry = put e.name e c.complex_entry }) s);
  modify_complex_entry =
      λ k e s. (done tt, storing (λ c. record c { complex_entry = put k e c.complex_entry }) s);
  show_exec_host = λ k. showing (λ c. c.exec_host k);
  modify_exec_host =
      λ k h s. (done tt, storing (λ c. record c { exec_host = put k h c.exec_host }) s);
  show_host_configurations = λ s. (done (w1 ∷ []), s);
  show_host_configuration = λ k. showing (λ c. c.host_configuration k);
  add_host_configuration =
      λ h s. elim (hosts_of s h.name) [ none ↦ modify_w1 h.name h s | some _ ↦ (fails exist, s) ];
  modify_host_configuration = modify_w1;
  show_cluster_queue = λ k. showing (λ c. c.cluster_queue k);
  modify_cluster_queue =
      λ k q s. (done tt, storing (λ c. record c { cluster_queue = put k q c.cluster_queue }) s);
  show_global_configuration = λ s. (done s.stored.global_configuration, s);
  modify_global_config =
      λ g s. (done tt, storing (λ c. record c { global_configuration = some g }) s);
}

or_not_exist-done : {A : Type 0} (o : Option A) (a : A) → or_not_exist o ≡ done a → o ≡ some a
or_not_exist-done none a h = cc h
or_not_exist-done (some b) a h = cc h

shown : {A : Type 0} (find : Stored → Option A) → IsShow view find (showing find)
shown find s = (refl, λ a h. or_not_exist-done (find (view s)) a h)

done_not_fails : {P : Type 0} (x : Failure) → ◌≡◌ {A = Reply (Unit {0})} (done tt) (fails x) → P
done_not_fails x h = absurd (cc h)

fails_not_done : {P : Type 0} (x : Failure) → ◌≡◌ {A = Reply (Unit {0})} (fails x) (done tt) → P
fails_not_done x h = absurd (cc h)

abbrev storing_entry : ComplexEntry → Store → Store
storing_entry e = storing (λ c. record c { complex_entry = put e.name e c.complex_entry })

entry_added :
    (e : ComplexEntry) (o : Option ComplexEntry) (s : Store)
    → (((adding o s (storing_entry e s)).0 ≡ done tt
          → view (adding o s (storing_entry e s)).1
            ≡ record (view s) { complex_entry = put e.name e s.stored.complex_entry })
        × ((x : Failure)
            → (adding o s (storing_entry e s)).0 ≡ fails x
            → view (adding o s (storing_entry e s)).1 ≡ view s))
      × ((adding o s (storing_entry e s)).0 ≡ done tt → o ≡ none)
entry_added e none s = ((λ _. refl, λ x h. done_not_fails x h), λ _. refl)
entry_added e (some a) s = ((λ h. fails_not_done exist h, λ x _. refl), λ h. fails_not_done exist h)

replaced_w1 :
    (k : Text) (h : HostConfiguration (Unit {0})) (s : Store)
    → text_eq w1 k ≡ true
    → hosts_of (record s { of_w1 = some h }) ≡ put k h (hosts_of s)
replaced_w1 k h s e = fun_ext λ j.
    let same : w1 ≡ k = (text_eq_iff w1 k).0 e in
    elim (Bool-cases (text_eq w1 j)) [
      | inl t ↦ rw (t, ← same, t) refl
      | inr t ↦ rw (t, ← same, t) refl
    ]

w1_modified :
    (k : Text) (h : HostConfiguration (Unit {0}))
    → IsChange view
        (λ c. record c { host_configuration = put k h c.host_configuration })
        (modify_w1 k h)
w1_modified k h s = elim (Bool-cases (text_eq w1 k)) [
  | inl e ↦ rw e (
    λ _ i. record s.stored { host_configuration = replaced_w1 k h s e i },
    λ x h. done_not_fails x h,
  )
  | inr e ↦ rw e (λ h. fails_not_done not_exist h, λ x _. refl)
]

w1_added :
    (h : HostConfiguration (Unit {0})) (s : Store) (o : Option (HostConfiguration (Unit {0})))
    → (let p : Reply (Unit {0}) × Store = elim o [
      | none ↦ modify_w1 h.name h s
      | some _ ↦ (fails exist, s)
    ] in
        ((p.0 ≡ done tt
            → view p.1 ≡ record (view s) { host_configuration = put h.name h (hosts_of s) })
          × ((x : Failure) → p.0 ≡ fails x → view p.1 ≡ view s))
        × (p.0 ≡ done tt → o ≡ none))
w1_added h s none = (w1_modified h.name h s, λ _. refl)
w1_added h s (some a) = ((λ e. fails_not_done exist e, λ x _. refl), λ e. fails_not_done exist e)

w1_listed :
    (s : Store) (k : Text) (h : HostConfiguration (Unit {0}))
    → hosts_of s k ≡ some h
    → contains (w1 ∷ []) k ≡ true
unfolding contains
w1_listed s k h e = ground arith

done_injective : {A : Type 0} {a b : A} → done a ≡ done b → a ≡ b
done_injective h = cc h

pub client-IsFaithful : IsFaithful client
client-IsFaithful = record {
  shows_complex_entry = λ k. shown (λ c. c.complex_entry k);
  adds_complex_entry = λ e. (
    λ s. (entry_added e (s.stored.complex_entry e.name) s).0,
    λ s. (entry_added e (s.stored.complex_entry e.name) s).1,
  );
  modifies_complex_entry = λ k e s. (λ _. refl, λ x h. done_not_fails x h);
  shows_exec_host = λ k. shown (λ c. c.exec_host k);
  modifies_exec_host = λ k h s. (λ _. refl, λ x e. done_not_fails x e);
  shows_host_configurations = λ s. (
    refl,
    λ ks e k h at. subst (λ l. contains l k ≡ true) (done_injective e) (w1_listed s k h at),
  );
  shows_host_configuration = λ k. shown (λ c. c.host_configuration k);
  adds_host_configuration =
      λ h. (λ s. (w1_added h s (hosts_of s h.name)).0, λ s. (w1_added h s (hosts_of s h.name)).1);
  modifies_host_configuration = w1_modified;
  shows_cluster_queue = λ k. shown (λ c. c.cluster_queue k);
  modifies_cluster_queue = λ k q s. (λ _. refl, λ x h. done_not_fails x h);
  shows_global_configuration = λ s. (refl, λ g e. done_injective e);
  modifies_global_config = λ g s. (λ _. refl, λ x h. done_not_fails x h);
}
