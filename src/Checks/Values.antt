-- ===== src/Checks/Values.antt =====
-- A machine, a scheduler and a libqrmi that answer, and ones that fail.
use qpu_resource.Prelude.{
  Bool, true, List, [], ◌∷◌, none, some, Text, codes, text_eq, if◌then◌else◌,
}
use qpu_resource.Prelude.Int.{ℤ, pos}
use qpu_resource.Machine.{Machine, FileInfo}
use qpu_resource.Errors.{Reply, done, fails, not_exist, other}
use qpu_resource.Hooks.{System, Process, ResourceDef, Config}
use qpu_resource.Prolog.Request.{Float64}
use qpu_resource.Prolog.Scheduler.{HookConfig}
use qpu_resource.Epilog.Release.{EpilogConfig}
use qpu_resource.Qrmiocs.LaunchEnv.{LaunchSettings}
use qpu_resource.Qrmiocs.Metadata.{Record}

abbrev root_file : FileInfo
root_file = record { uid = some 0; is_dir = true; is_regular = true; perm = 0o755 }

-- No symbolic links; every file belongs to root.
abbrev pub machine : Machine
machine = record {
  eval_symlinks = λ path. done path;
  stat = λ path. done root_file;
  lstat = λ path. done root_file;
  effective_uid = 500;
  real_uid = 500;
  lookup_id = λ id. fails not_exist;
  lookup_user = λ name. fails not_exist;
}

abbrev definition : ResourceDef
definition = record {
  kind = pos 2;
  type_string = codes "pasqal";
  environments = record { key = codes "URL"; value = codes "u" } ∷ [];
}

abbrev pub resources : Config
resources name = if text_eq name (codes "EMU") then done definition else fails not_exist

abbrev scheduler : Text → List Text → Reply Text
scheduler path [] = fails (other 1)
scheduler path (arg ∷ args) =
    if text_eq arg (codes "-j")
    then done (codes "hard_resource_list:  qpu=EMU\n")
    else done (codes "complex_values   qpu=EMU\n")

-- The metadata file is the one that the prolog writes. The argument tells whether the metadata can
-- be renamed into place and released.
unfoldable pub system : Bool → System
unfolding text_eq
system works = record {
  machine = machine;
  error_text = λ e. codes "e";
  hostname = done (codes "h");
  run = λ h path args. scheduler path args;
  open_append = λ h path. done tt;
  chmod = λ h path. done tt;
  append = λ h path line. done tt;
  close = λ h path. done tt;
  load_config = λ h path. done resources;
  new_resource = λ h name kind. done tt;
  is_accessible = λ h. done true;
  acquire = λ h. done (codes "tok");
  release = λ h token. if works then done tt else fails (other 2);
  now = λ h. pos 7;
  seconds_between = λ h h'. pos 1;
  create_temp = λ h path. done (codes "/t");
  write = λ h path text. done tt;
  rename = λ h path target. if works then done tt else fails (other 3);
  remove = λ h path. done tt;
  mkdir = λ h path. done tt;
  link = λ h path target. done tt;
  read_file = λ h path. done (record { text = codes "EMU\t2\ttok\t7\n"; read_error = none });
}

abbrev pub process : Process
process = record {
  env = (codes "JOB_ID", codes "7") ∷ (codes "SGE_JOB_SPOOL_DIR", codes "/s/active_jobs/7.1") ∷ [];
  history = [];
  writer_error = none;
}

abbrev pub floats : Float64
floats = record {
  Float = ℤ;
  parse_float = λ s. fails (other 4);
  to_int = λ z. z;
  of_int = λ z. z;
  equal = λ x y. true;
}

abbrev pub prolog_config : HookConfig
prolog_config = record {
  config_path = codes "/c";
  resource_name = codes "qpu";
  slots_resource_name = [];
  qstat_path = codes "/b/qstat";
  log_level = codes "4";
}

abbrev pub epilog_config : EpilogConfig
epilog_config = record { config_path = codes "/c"; log_level = []; job_owner = [] }

abbrev pub settings : LaunchSettings
settings = record {
  sge_root = codes "/o";
  sge_cell = codes "default";
  spool_roots = codes "/s" ∷ [];
  qmaster_port = codes "6444";
  execd_port = [];
}

abbrev pub acquisition : Record
acquisition = record {
  name = codes "EMU";
  kind = pos 2;
  token = codes "tok";
  acquired_epoch = pos 7;
}
