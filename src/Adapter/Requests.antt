-- ===== src/Adapter/Requests.antt =====
-- src/cmd/gridware-adapter/main.go: what its subcommands read and check before they make a client.
use qpu_resource.Prelude.{not, List, [], Text, is_nil}
use qpu_resource.Strings.{trim_space}
use qpu_resource.Errors.{errorf, Result, ok, ◌>>=◌, ◌>>◌, guard}
use qpu_resource.Flags.{FlagSet, parse}
use qpu_resource.Adapter.{parse_csv, parse_single_backend_name}
use qpu_resource.Adapter.Flags.{
  CommandFlags, default_flags, ensure_resource_flags, setup_qrmi_support_flags,
  configure_queue_hooks_flags,
}

unfoldable parse_flags : FlagSet CommandFlags → List Text → Result CommandFlags
unfolding parse default_flags
parse_flags fs args = parse fs default_flags args >>= λ parsed. ok parsed.0

-- `runEnsureResource`, up to the client: the flags and the backend.
unfoldable pub ensure_resource_request : List Text → Result (CommandFlags × Text)
unfolding parse_flags ensure_resource_flags parse_single_backend_name
ensure_resource_request args = do
  flags ← parse_flags ensure_resource_flags args
  value ← parse_single_backend_name flags.host_value
  ok (flags, value)

abbrev check_queue : CommandFlags → Result (Unit {0})
check_queue flags = do
  guard (not (is_nil (trim_space flags.queue))) (errorf "--queue is required" [])
  guard (not (is_nil (trim_space flags.prolog))) (errorf "--prolog is required" [])
  guard (not (is_nil (trim_space flags.epilog))) (errorf "--epilog is required" [])

-- `runSetupQRMISupport`, up to the client.
unfoldable pub setup_request : List Text → Result (CommandFlags × Text)
unfolding parse_flags setup_qrmi_support_flags parse_single_backend_name parse_csv trim_space
setup_request args = do
  flags ← parse_flags setup_qrmi_support_flags args
  guard (not (is_nil (parse_csv flags.hosts))) (errorf "--hosts is required" [])
  value ← parse_single_backend_name flags.host_value
  check_queue flags
  ok (flags, value)

-- `runConfigureQueueHooks`, up to the client.
unfoldable pub queue_hooks_request : List Text → Result CommandFlags
unfolding parse_flags configure_queue_hooks_flags trim_space
queue_hooks_request args = do
  flags ← parse_flags configure_queue_hooks_flags args
  check_queue flags
  ok flags
