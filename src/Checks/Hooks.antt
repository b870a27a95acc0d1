-- ===== src/Checks/Hooks.antt =====
-- The hooks at concrete inputs: src/cmd/qrmi-ocs-prolog-go/main.go and src/cmd/qrmi-ocs-epilog-go/main.go.
use qpu_resource.Prolog.Main.{prolog_main}
use qpu_resource.Prolog.Main.Exit.{IsHookCode, prolog_main-IsHookCode}
use Prim.{⊥}
use qpu_resource.Prelude.{List, true, false, [], ◌∷◌, ◌≡◌, refl, codes}
use qpu_resource.Errors.{ok}
use qpu_resource.Hooks.Triple.{Outcome}
use qpu_resource.Prolog.Run.{run_with_config}
use qpu_resource.FilePath.{join_path}
use qpu_resource.Prelude.{text_eq, Text}
use qpu_resource.Checks.Values.{acquisition}
use qpu_resource.Prolog.Tokens.{
  View, Kept, stored, written, view, unreleased, last_resource, up_to_acquired, Holds, Served,
  MakesTemporaries, metadata_in,
}
use qpu_resource.Prolog.Verdict.{flags}
use qpu_resource.FilePath.Ends.{IsName, join_path-EndsIn}
use qpu_resource.Strings.{split}
use qpu_resource.Prelude.{Bool, ◌++◌, ◌∙◌}
use qpu_resource.Prolog.Tokens.Safety.{run_with_config-no_token_lost}
use qpu_resource.Epilog.Run.{run}
use qpu_resource.Epilog.Fate.{fate, asked_back, record_lost, Done, metadata_of}
use qpu_resource.Epilog.Fate.Ending.{run-Done}
use qpu_resource.Hooks.Exec.{
  pure, raise, lift, call, wrapping, attempt, ◌>>=◌, or_else, deferring, log, getenv, note,
}
use qpu_resource.Hooks.JobEnv.{
  resolve_spool_file, set_process_env, close_job_env, open_job_env, append_line, write_job_env, set,
  set_pairs, apply_rust_log, set_plugin_error,
}
use qpu_resource.Hooks.MetadataFile.{
  close_file, remove_file, write_and_rename, write_atomic, preserve_failed_release,
}
use qpu_resource.Prolog.Request.{
  field_rest, collect, find_field, field_value, item_value, first_value, resource_from_list,
  parse_job_requested_resource, parse_granted_slots,
}
use qpu_resource.Prolog.Scheduler.{
  scheduler_job_id, scheduler_job_uid, run_scheduler_command, read_job_requested_resource,
  show_host, check_host_offers, read_granted_slots,
}
use qpu_resource.Prolog.Acquire.{
  backend_pairs, given_pairs, report_error, release_token, keep_token,
}
use qpu_resource.Prolog.Run.{
  granted_slots, export_scheduler_job_env, acquire_and_keep, with_def, with_config, with_job_env,
  serve,
}
use qpu_resource.Epilog.Release.{
  release_uid, definition_pairs, setenv_all, set_env_of_definition, set_env_of_config,
  set_release_env, release, release_record,
}
use qpu_resource.Epilog.Summary.{
  append_metrics, append_usage, mirror_metrics, account, publish_summary,
}
use qpu_resource.Epilog.Run.{read_record, settle, release_if_read, finish}
use qpu_resource.Qrmiocs.Metadata.{read_strict_single, render_records}
use qpu_resource.Qrmiocs.Grant.{parse_granted_backend}
use qpu_resource.Checks.Values.{system, process, floats, prolog_config, epilog_config}

prolog_keeps_token :
    unreleased (run_with_config (system true) floats prolog_config [] process).1.history
    ≡ codes "tok" ∷ []
unfolding unreleased run_with_config system parse_granted_backend render_records pure raise lift
    call wrapping attempt ◌>>=◌ or_else deferring log getenv note resolve_spool_file set_process_env
    close_job_env open_job_env append_line write_job_env set set_pairs apply_rust_log
    set_plugin_error close_file remove_file write_and_rename write_atomic preserve_failed_release
    field_rest collect find_field field_value item_value first_value resource_from_list
    parse_job_requested_resource parse_granted_slots scheduler_job_id scheduler_job_uid
    run_scheduler_command read_job_requested_resource show_host check_host_offers read_granted_slots
    backend_pairs given_pairs report_error release_token keep_token granted_slots
    export_scheduler_job_env acquire_and_keep with_def with_config with_job_env serve
prolog_keeps_token = refl

-- What the history shows after the prolog.
abbrev after_prolog : View
after_prolog = view (run_with_config (system true) floats prolog_config [] process).1.history

unfoldable prolog_keeps_record : Kept (system true) [] after_prolog
unfolding view unreleased last_resource up_to_acquired stored written text_eq run_with_config system
    parse_granted_backend render_records pure raise lift call wrapping attempt ◌>>=◌ or_else
    deferring log getenv note resolve_spool_file set_process_env close_job_env open_job_env
    append_line write_job_env set set_pairs apply_rust_log set_plugin_error close_file remove_file
    write_and_rename write_atomic preserve_failed_release field_rest collect find_field field_value
    item_value first_value resource_from_list parse_job_requested_resource parse_granted_slots
    scheduler_job_id scheduler_job_uid run_scheduler_command read_job_requested_resource show_host
    check_host_offers read_granted_slots backend_pairs given_pairs report_error release_token
    keep_token granted_slots export_scheduler_job_env acquire_and_keep with_def with_config
    with_job_env serve
prolog_keeps_record = record {
  acquisition = acquisition;
  holds = refl;
  resource = refl;
  epoch = refl;
  spool = codes "/s/active_jobs/7.1";
  text = codes "EMU\t2\ttok\t7\n";
  rendered = refl;
  in_place = refl;
}

qrmi_ocs_acquired-IsName : IsName (codes "qrmi_ocs_acquired.tsv")
unfolding text_eq split
qrmi_ocs_acquired-IsName = record {
  given = refl;
  not_dot = refl;
  not_dots = refl;
  one_element = refl;
}

too_short : (front : Text) → ¬ (codes "/t" ≡ front ++ codes "qrmi_ocs_acquired.tsv")
too_short [] e = absurd (cc e)
too_short (c ∷ []) e = absurd (cc e)
too_short (c ∷ d ∷ []) e = absurd (cc e)
too_short (c ∷ d ∷ x ∷ front) e = absurd (cc e)

other_file : (spool : Text) → ¬ (codes "/t" ≡ metadata_in spool)
unfolding join_path
other_file [] e = too_short [] e
other_file (c ∷ spool) e =
    let (front, ends) =
      join_path-EndsIn (codes "qrmi_ocs_acquired.tsv") qrmi_ocs_acquired-IsName (c ∷ spool) refl in
    too_short front (e ∙ ends)

-- The temporary file is `/t`.
system-MakesTemporaries : (works : Bool) → MakesTemporaries (system works)
unfolding system
system-MakesTemporaries works h spool e = other_file spool (cc e)

run_with_config-no_token_lost_example :
    Outcome view
      (λ _. Served (system true) (unreleased []))
      (Holds (unreleased []))
      (run_with_config (system true) floats prolog_config [] process)
run_with_config-no_token_lost_example =
    run_with_config-no_token_lost (system true) floats prolog_config [] process
      (system-MakesTemporaries true)

run-Done_example :
    Outcome
      (fate (metadata_of (system true) epilog_config process))
      (Done (system true) epilog_config process (asked_back []))
      (λ _. ⊥)
      (run (system true) epilog_config process)
unfolding record_lost
run-Done_example = run-Done (system true) epilog_config process refl

epilog_exits : (run (system true) epilog_config process).0 ≡ ok 0
unfolding run system pure raise lift call wrapping attempt ◌>>=◌ or_else deferring log getenv note
    resolve_spool_file set_process_env close_job_env open_job_env append_line write_job_env set
    set_pairs apply_rust_log set_plugin_error close_file remove_file write_and_rename write_atomic
    preserve_failed_release release_uid definition_pairs setenv_all set_env_of_definition
    set_env_of_config set_release_env release release_record append_metrics append_usage
    mirror_metrics account publish_summary read_record settle release_if_read finish
    scheduler_job_id read_strict_single
epilog_exits = refl

-- A release that fails leaves the exit code as it is, and keeps the record.
epilog_keeps_record : (run (system false) epilog_config process).0 ≡ ok 0
unfolding run system pure raise lift call wrapping attempt ◌>>=◌ or_else deferring log getenv note
    resolve_spool_file set_process_env close_job_env open_job_env append_line write_job_env set
    set_pairs apply_rust_log set_plugin_error close_file remove_file write_and_rename write_atomic
    preserve_failed_release release_uid definition_pairs setenv_all set_env_of_definition
    set_env_of_config set_release_env release release_record append_metrics append_usage
    mirror_metrics account publish_summary read_record settle release_if_read finish
    scheduler_job_id read_strict_single
epilog_keeps_record = refl

abbrev hook_args : List Text
hook_args = codes "-qstat=/b/qstat" ∷ codes "ada" ∷ []

prolog_main-IsHookCode_example :
    IsHookCode
      (prolog_main (λ values. values) (system true) floats (codes "JOB_ID=7" ∷ []) hook_args).0
      (flags
        (prolog_main (λ values. values) (system true) floats (codes "JOB_ID=7" ∷ []) hook_args).1)
prolog_main-IsHookCode_example =
    prolog_main-IsHookCode (λ values. values) (system true) floats (codes "JOB_ID=7" ∷ []) hook_args
