-- ===== src/Lib.antt =====
-- The queue hooks of a QPU resource, with which a cluster scheduler gives a quantum backend to a
-- job: the launcher starts a hook with an environment that the job cannot set; the prolog reads
-- from the scheduler which backend was granted, acquires a token from libqrmi, exports it to the
-- job and leaves a record of it; the epilog reads that record, releases the token and writes the
-- accounting.
--
-- The files and the code that each models:
--   Strings, Decimal, FilePath, Dict, Flags, Errors: the functions of Go's strings, bufio, strconv,
--     path/filepath, flag and errors packages that the code uses, maps, and errors as values.
--     A text is the list of its code points, and a file's bytes are taken to be valid UTF-8.
--   Machine: file status, symbolic links and accounts, as parameters.
--   Qrmiocs: src/internal/qrmiocs. Sanitize, Spool and LaunchEnv model sanitize.go (CleanEnv,
--     CheckSpoolDir, LaunchEnv, each with its helpers); Metadata models metadata.go; Grant, grant.go;
--     LogLevel, loglevel.go; Log, log.go.
--   Trusted: trustedHook and trustedExecutable.
--   Launch: src/cmd/qrmi-ocs-launch/main.go (prepare).
--   Hooks: what the two hooks share. The state is the process environment, the history of calls and
--     the error that a buffered writer keeps. Each call of the system and of libqrmi is an event;
--     its reply is a function of the history, hence any reply at any time is covered. JobEnv models
--     env.go and the paths of paths.go; MetadataFile, WriteAtomic and PreserveFailedRelease. Keeps
--     and Triple hold the rules by which an action is proved to keep or to change a view of the
--     history; Codes and Sound, those by which its errors are proved to have no code or known ones.
--   Prolog: src/cmd/qrmi-ocs-prolog-go/main.go. Request models the reading of qstat and qconf output;
--     Scheduler, the calls of these commands; Run and Acquire, runWithConfig, in which every
--     `defer` opens a function of its own; Main, parseHookArgs and main. Tokens and Verdict read the
--     history of calls: which tokens are held and what is stored, and who is to blame for an error.
--   Epilog: src/cmd/qrmi-ocs-epilog-go/main.go. Release models setReleaseEnv and releaseRecord;
--     Summary, publishSummary and appendUsage; Run, run; Main, parseHookArgs and main.
--   Availability, LoadSensor: src/internal/availability and src/cmd/qrmi-ocs-load-sensor/main.go. The
--     decoded YAML configuration and the outcome of a request to the warden are inputs; a
--     provider's answer may change from cycle to cycle.
--   Adapter: src/cmd/gridware-adapter/main.go. QConf holds the configurations of the scheduler and
--     its client library as an interface: operations on a state of the library's own, of which a view
--     is what the scheduler has stored, and the documented behaviour as laws of a record. Options and
--     HookOptions model the options; Resource, the setup of the resource, whose Plan is the list
--     of obligations that the code has to fulfil and the steps that they allow; QueueHooks, the setup
--     of the queue hooks; Flags, Requests and Commands, the subcommands and main.
--   Qrmi: src/internal/qrmi. The C library is a parameter whose replies are a function of the history
--     of its calls; Binding models qrmi_real.go, whose receivers hold an address; Stub, qrmi_stub.go.
--     Memory checks a history: what each call allocates, and that what it uses or frees is there.
--   Checks: runs at concrete inputs.
--
-- All loops are over lists that the code holds in memory; there is no fuel. Numbers of the code that
-- can be negative are integers; `Atoi` and `ParseInt` have the bounds of 64 bits written out, and the
-- scanners have their limits on a line.
--
-- Not modelled: the C hooks; libqrmi itself, which is a parameter, and the lock and the registration
-- of its log callback; the usage texts; the text of errors and of the hooks' log lines, which keep
-- their format and their arguments; the lines that the adapter prints on its progress.
pub mod Prelude
pub mod Strings
pub mod Decimal
pub mod Errors
pub mod FilePath
pub mod Dict
pub mod Machine
pub mod Qrmiocs
pub mod Hooks
pub mod Trusted
pub mod Prolog
pub mod Epilog
pub mod Launch
pub mod Checks
pub mod Availability
pub mod LoadSensor
pub mod Adapter
pub mod Flags
pub mod Qrmi
