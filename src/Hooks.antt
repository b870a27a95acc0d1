-- ===== src/Hooks.antt =====
-- The world of the two hooks. Every call of the operating system and of the QRMI library is an
-- event; its reply is a parameter that may depend on all the events before it. The process
-- environment, which Go keeps itself, is a map.
pub mod Exec
pub mod JobEnv
pub mod Codes
pub mod Sound
pub mod Keeps
pub mod MetadataFile
pub mod Triple
use qpu_resource.Prelude.{ℕ, Bool, List, [], ◌∷◌, Option, none, some, Text, String}
use qpu_resource.Prelude.Int.{ℤ}
use qpu_resource.Dict.{Dict}
use qpu_resource.Machine.{Machine}
use qpu_resource.Errors.{Error, Failure, Reply}

pub data Level : Type 0 where
  info : Level
  warn : Level
  error : Level

pub data Event : Type 0 where
  logged : Level → String → List Text → Event
  ran : Text → List Text → Reply Text → Event
  opened : Text → ℕ → Reply (Unit {0}) → Event
  changed_mode : Text → ℕ → Reply (Unit {0}) → Event
  appended : Text → Text → Reply (Unit {0}) → Event
  closed : Text → Reply (Unit {0}) → Event
  loaded_config : Text → Event
  closed_config : Event
  closed_def : Event
  created_resource : Text → ℤ → Reply (Unit {0}) → Event
  closed_resource : Event
  asked_accessible : Reply Bool → Event
  acquired : Reply Text → Event
  released : Text → Reply (Unit {0}) → Event
  created_temp : Text → Reply Text → Event
  wrote : Text → Text → Reply (Unit {0}) → Event
  renamed : Text → Text → Reply (Unit {0}) → Event
  removed : Text → Reply (Unit {0}) → Event
  made_dir : Text → Reply (Unit {0}) → Event
  linked : Text → Text → Reply (Unit {0}) → Event
  read : Text → Event

-- The newest event comes first.
abbrev pub History : Type 0
History = List Event

pub record EnvVar : Type 0 where
  pub key : Text
  pub value : Text

-- A resource definition of qrmi_config.json.
pub record ResourceDef : Type 0 where
  pub kind : ℤ
  pub type_string : Text
  pub environments : List EnvVar

-- A loaded configuration: its definitions by name.
abbrev pub Config : Type 0
Config = Text → Reply ResourceDef

-- What a file holds as it is read, and the error at which reading ends, if any.
pub record FileText : Type 0 where
  pub text : Text
  pub read_error : Option Failure

-- The replies of the system and of libqrmi.
pub record System : Type 0 where
  pub machine : Machine
  pub error_text : Error → Text
  pub hostname : Reply Text
  pub run : History → Text → List Text → Reply Text
  pub open_append : History → Text → Reply (Unit {0})
  pub chmod : History → Text → Reply (Unit {0})
  pub append : History → Text → Text → Reply (Unit {0})
  pub close : History → Text → Reply (Unit {0})
  pub load_config : History → Text → Reply Config
  pub new_resource : History → Text → ℤ → Reply (Unit {0})
  pub is_accessible : History → Reply Bool
  pub acquire : History → Reply Text
  pub release : History → Text → Reply (Unit {0})
  pub now : History → ℤ
  pub seconds_between : History → History → ℤ
  pub create_temp : History → Text → Reply Text
  pub write : History → Text → Text → Reply (Unit {0})
  pub rename : History → Text → Text → Reply (Unit {0})
  pub remove : History → Text → Reply (Unit {0})
  pub mkdir : History → Text → Reply (Unit {0})
  pub link : History → Text → Text → Reply (Unit {0})
  pub read_file : History → Text → Reply FileText

-- `writer_error` is the error that the buffered writer of the job environment file keeps.
pub record Process : Type 0 where
  pub env : Dict Text
  pub history : History
  pub writer_error : Option Error
