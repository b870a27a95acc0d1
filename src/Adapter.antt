-- ===== src/Adapter.antt =====
-- src/cmd/gridware-adapter/main.go, as far as it computes on texts: the list of load sensors, the
-- command of a queue hook and the parsing of option values.
pub mod Sensors
pub mod QConf
pub mod Action
pub mod Options
pub mod Resource
pub mod HookOptions
pub mod QueueHooks
pub mod Words
pub mod Flags
pub mod Requests
pub mod Commands
use qpu_resource.Prelude.{
  Bool, not, ◌||◌, ◌&&◌, List, [], ◌∷◌, ◌++◌, Text, codes, text_eq, if◌then◌else◌, is_nil, has_char,
}
use qpu_resource.Strings.{trim_space, split, contains_any, equal_fold}
use qpu_resource.FilePath.{base, is_abs}
use qpu_resource.Errors.{errorf, Result, ok, err, ◌>>=◌, ◌>>◌, guard}

-- A placeholder, or an earlier install of the same program.
unfoldable pub is_replaced : Text → Text → Bool
unfolding equal_fold base text_eq
is_replaced path sensor = equal_fold sensor (codes "NONE") || text_eq (base sensor) (base path)

unfoldable pub other_sensors : Text → List Text → List Text
unfolding is_replaced
other_sensors path [] = []
other_sensors path (sensor ∷ sensors) =
    let rest = other_sensors path sensors in if is_replaced path sensor then rest else sensor ∷ rest

-- `withLoadSensor`.
unfoldable pub with_load_sensor : List Text → Text → List Text
unfolding other_sensors
with_load_sensor current path = other_sensors path current ++ (path ∷ [])

unfoldable pub trimmed_parts : List Text → List Text
unfolding trim_space
trimmed_parts [] = []
trimmed_parts (p ∷ ps) =
    let rest = trimmed_parts ps in if is_nil (trim_space p) then rest else trim_space p ∷ rest

-- `parseCSV`; nil is the empty list.
unfoldable pub parse_csv : Text → List Text
unfolding trimmed_parts split trim_space
parse_csv raw = if is_nil (trim_space raw) then [] else trimmed_parts (split b',' raw)

-- `parseSingleBackendName`.
unfoldable pub parse_single_backend_name : Text → Result Text
unfolding trim_space contains_any has_char
parse_single_backend_name raw = do
  guard (not (is_nil (trim_space raw))) (errorf "--host-value cannot be empty" [])
  guard (not (has_char b',' (trim_space raw)))
      (errorf "invalid --host-value %q: only one backend name is allowed" (raw ∷ []))
  guard (not (contains_any (codes " \t\r\n") (trim_space raw)))
      (errorf "invalid --host-value %q: whitespace is not allowed" (raw ∷ []))
  ok (trim_space raw)

-- The loop over the words of a command.
unfoldable pub join_words : Text → List Text → Result Text
unfolding contains_any
join_words command [] = ok command
join_words command (word ∷ words) = do
  guard (not (is_nil word) && not (contains_any (codes " \t\r\n") word))
      (errorf "hook arguments must be non-empty and contain no whitespace" [])
  join_words (command ++ (b' ' ∷ word)) words

abbrev pub check_path : Text → Result (Unit {0})
check_path path = guard (not (contains_any (codes " \t\r\n@") path) && is_abs path) (
    errorf
      "hook and launcher paths must be absolute, without whitespace or a user prefix (use --hook-user): %q"
      (path ∷ []))

abbrev pub hook_command : Text → Text → Text → List Text → List Text → Result Text
hook_command hook launcher user launcher_args args = do
  check_path hook
  check_path launcher
  guard (not (is_nil user) && not (contains_any (codes "@ \t\r\n$") user))
      (errorf "invalid hook user %q" (user ∷ []))
  command ← join_words (user ++ (b'@' ∷ launcher)) (launcher_args ++ (hook ∷ args))
  ok (command ++ codes " $job_owner")

-- `qrmiQueueHookCommand`.
unfoldable pub qrmi_queue_hook_command : Text → Text → Text → List Text → List Text → Result Text
unfolding trim_space text_eq contains_any join_words
qrmi_queue_hook_command hook launcher user launcher_args args =
    if text_eq (trim_space hook) (codes "NONE")
    then ok (trim_space hook)
    else hook_command (trim_space hook) launcher user launcher_args args
