-- ===== src/Adapter/QConf.antt =====
-- The scheduler's configuration as src/cmd/gridware-adapter/main.go sees it, and the client library
-- github.com/hpc-gridware/go-clusterscheduler/pkg/qconf/v9.1 as an interface: its calls as
-- operations on a state of its own, with what the code relies on as laws.
use qpu_resource.Prelude.{
  true, List, Option, none, some, Text, text_eq, text_eq_refl, contains, if◌then◌else◌, ◌≡◌, refl,
}
use qpu_resource.Prelude.Int.{ℤ}
use qpu_resource.Dict.{Dict}
use qpu_resource.Errors.{Error, Failure, Reply, done, fails}

-- `qconf.ComplexEntryConfig`.
pub record ComplexEntry : Type 0 where
  pub name : Text
  pub shortcut : Text
  pub kind : Text
  pub relop : Text
  pub requestable : Text
  pub consumable : Text
  pub default : Text
  pub urgency : ℤ

-- The other configurations, with the fields that the code reads or writes; `rest` is all the others.
module _ (Rest : Type 0) where
  pub record ExecHost : Type 0 where
    pub name : Text
    pub complex_values : Dict Text
    pub rest : Rest

  pub record HostConfiguration : Type 0 where
    pub name : Text
    pub load_sensors : List Text
    pub execd_spool_dir : Option Text
    pub rest : Rest

  pub record ClusterQueue : Type 0 where
    pub name : Text
    pub prolog : List Text
    pub epilog : List Text
    pub rest : Rest

  pub record GlobalConfiguration : Type 0 where
    pub execd_spool_dir : Text
    pub reporting_params : List Text
    pub rest : Rest

  -- What the scheduler has stored.
  pub record Configuration : Type 0 where
    pub complex_entry : Text → Option ComplexEntry
    pub exec_host : Text → Option ExecHost
    pub host_configuration : Text → Option HostConfiguration
    pub cluster_queue : Text → Option ClusterQueue
    pub global_configuration : Option GlobalConfiguration

-- A map with one entry replaced.
abbrev pub put {ℓ} : {A : Type ℓ} → Text → A → (Text → Option A) → Text → Option A
put k a f j = if text_eq k j then some a else f j

pub put_self {ℓ} : {A : Type ℓ} (k : Text) (a : A) (f : Text → Option A) → put k a f k ≡ some a
put_self k a f = rw (text_eq_refl k) refl

module _ {S C : Type 0} (view : S → C) where
  -- A call that reads: it changes nothing, and what it returns is what is stored.
  abbrev pub IsShow : {A : Type 0} → (C → Option A) → (S → Reply A × S) → Type 0
  IsShow find op =
      (s : S) → (view (op s).1 ≡ view s) × ((a : _) → (op s).0 ≡ done a → find (view s) ≡ some a)

  -- A call that writes: it changes what it says, or nothing.
  abbrev pub IsChange : (C → C) → (S → Reply (Unit {0}) × S) → Type 0
  IsChange change op =
      (s : S)
      → ((op s).0 ≡ done tt → view (op s).1 ≡ change (view s))
        × ((x : Failure) → (op s).0 ≡ fails x → view (op s).1 ≡ view s)

  -- A call that adds an entry fails where there is one.
  abbrev pub IsAddition : {A : Type 0} → (C → Option A) → (S → Reply (Unit {0}) × S) → Type 0
  IsAddition find op = (s : S) → (op s).0 ≡ done tt → find (view s) ≡ none

-- The client, and `%v` of an error. Calls may fail at any time.
pub record QConf : Type 1 where
  pub State : Type 0
  pub Rest : Type 0
  pub no_rest : Rest
  pub view : State → Configuration Rest
  pub error_text : Error → Text
  pub show_complex_entry : Text → State → Reply ComplexEntry × State
  pub add_complex_entry : ComplexEntry → State → Reply (Unit {0}) × State
  pub modify_complex_entry : Text → ComplexEntry → State → Reply (Unit {0}) × State
  pub show_exec_host : Text → State → Reply (ExecHost Rest) × State
  pub modify_exec_host : Text → ExecHost Rest → State → Reply (Unit {0}) × State
  pub show_host_configurations : State → Reply (List Text) × State
  pub show_host_configuration : Text → State → Reply (HostConfiguration Rest) × State
  pub add_host_configuration : HostConfiguration Rest → State → Reply (Unit {0}) × State
  pub modify_host_configuration : Text → HostConfiguration Rest → State → Reply (Unit {0}) × State
  pub show_cluster_queue : Text → State → Reply (ClusterQueue Rest) × State
  pub modify_cluster_queue : Text → ClusterQueue Rest → State → Reply (Unit {0}) × State
  -- A nil pointer is `none`.
  pub show_global_configuration : State → Reply (Option (GlobalConfiguration Rest)) × State
  pub modify_global_config : GlobalConfiguration Rest → State → Reply (Unit {0}) × State

-- The documented behaviour of the client, outside a dry run.
pub record IsFaithful (qc : QConf) : Type 0 where
  pub shows_complex_entry :
      (k : Text) → IsShow qc.view (λ c. c.complex_entry k) (qc.show_complex_entry k)
  pub adds_complex_entry :
      (e : ComplexEntry)
      → IsChange qc.view
          (λ c. record c { complex_entry = put e.name e c.complex_entry })
          (qc.add_complex_entry e)
        × IsAddition qc.view (λ c. c.complex_entry e.name) (qc.add_complex_entry e)
  pub modifies_complex_entry :
      (k : Text) (e : ComplexEntry)
      → IsChange qc.view
          (λ c. record c { complex_entry = put k e c.complex_entry })
          (qc.modify_complex_entry k e)
  pub shows_exec_host : (k : Text) → IsShow qc.view (λ c. c.exec_host k) (qc.show_exec_host k)
  pub modifies_exec_host :
      (k : Text) (h : ExecHost qc.Rest)
      → IsChange qc.view
          (λ c. record c { exec_host = put k h c.exec_host })
          (qc.modify_exec_host k h)
  pub shows_host_configurations :
      (s : qc.State)
      → (qc.view (qc.show_host_configurations s).1 ≡ qc.view s)
        × ((ks : List Text)
            → (qc.show_host_configurations s).0 ≡ done ks
            → (k : Text) (h : HostConfiguration qc.Rest) → (qc.view s).host_configuration k ≡ some h
            → contains ks k ≡ true)
  pub shows_host_configuration :
      (k : Text) → IsShow qc.view (λ c. c.host_configuration k) (qc.show_host_configuration k)
  pub adds_host_configuration :
      (h : HostConfiguration qc.Rest)
      → IsChange qc.view
          (λ c. record c { host_configuration = put h.name h c.host_configuration })
          (qc.add_host_configuration h)
        × IsAddition qc.view (λ c. c.host_configuration h.name) (qc.add_host_configuration h)
  pub modifies_host_configuration :
      (k : Text) (h : HostConfiguration qc.Rest)
      → IsChange qc.view
          (λ c. record c { host_configuration = put k h c.host_configuration })
          (qc.modify_host_configuration k h)
  pub shows_cluster_queue :
      (k : Text) → IsShow qc.view (λ c. c.cluster_queue k) (qc.show_cluster_queue k)
  pub modifies_cluster_queue :
      (k : Text) (q : ClusterQueue qc.Rest)
      → IsChange qc.view
          (λ c. record c { cluster_queue = put k q c.cluster_queue })
          (qc.modify_cluster_queue k q)
  pub shows_global_configuration :
      (s : qc.State)
      → (qc.view (qc.show_global_configuration s).1 ≡ qc.view s)
        × ((g : GlobalConfiguration qc.Rest)
            → (qc.show_global_configuration s).0 ≡ done (some g)
            → (qc.view s).global_configuration ≡ some g)
  pub modifies_global_config :
      (g : GlobalConfiguration qc.Rest)
      → IsChange qc.view
          (λ c. record c { global_configuration = some g })
          (qc.modify_global_config g)
