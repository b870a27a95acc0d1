-- ===== src/Checks/Launch.antt =====
-- The launcher at concrete inputs: src/internal/qrmiocs/sanitize.go and src/cmd/qrmi-ocs-launch/main.go.
use qpu_resource.Decimal.{is_number}
use qpu_resource.Prelude.{
  text_eq, List, [], ◌∷◌, ◌++◌, ◌≡◌, refl, ◌⊎◌, inl, inr, All, some, Text, codes, contains,
}
use qpu_resource.Strings.{cut, cut_prefix}
use qpu_resource.Errors.{
  Error, ok, err, ◌>>=◌, exit_code, exit_job_error, exit_host_error, job_error, errorf,
}
use qpu_resource.Trusted.{trusted_hook}
use qpu_resource.Qrmiocs.Sanitize.{is_loader_key, check_loader_env}
use qpu_resource.Qrmiocs.Spool.{check_spool_dir, spool_shape, is_job_spool}
use qpu_resource.Qrmiocs.Spool.Own.{IsOwnSpool, check_spool_dir-IsOwnSpool}
use qpu_resource.Qrmiocs.LaunchEnv.{
  job_values, validate, hook_env, find_spool_root, launch_values, launch_env,
}
use qpu_resource.Qrmiocs.LaunchEnv.Isolation.{launch_env_ignores}
use qpu_resource.Qrmiocs.LaunchEnv.Contents.{
  IsHookVariable, IsLaunched, launch_env-IsHookVariable, launch_env-IsLaunched,
}
use qpu_resource.Qrmiocs.LaunchEnv.ExitCodes.{launch_env_exit}
use qpu_resource.Qrmiocs.LaunchEnv.Loader.{launch_env-loader}
use qpu_resource.Qrmiocs.LogLevel.{rust_log_from_debug}
use qpu_resource.Strings.{trim_space}
use qpu_resource.Qrmiocs.LogLevel.Words.{Means, rust_log_from_debug-Means}
use qpu_resource.Qrmiocs.Sanitize.{clean_env}
use qpu_resource.Qrmiocs.Sanitize.Clean.{IsTrusted, IsClean, clean_env-IsClean}
use qpu_resource.Dict.{Dict}
use qpu_resource.Launch.{prepare}
use qpu_resource.Launch.Options.{option_words, prepare-option_words}
use qpu_resource.Checks.Values.{machine, settings}

abbrev job : List Text
job = codes "JOB_ID=7" ∷ codes "SGE_JOB_SPOOL_DIR=/s/active_jobs/7.1" ∷ codes "TZ=UTC" ∷ []

abbrev launched : List Text
launched =
    codes "JOB_ID=7"
    ∷ codes "SGE_JOB_SPOOL_DIR=/s/active_jobs/7.1"
    ∷ codes "SGE_ROOT=/o"
    ∷ codes "SGE_CELL=default"
    ∷ codes "SGE_QMASTER_PORT=6444"
    ∷ codes "TZ=UTC"
    ∷ codes "PATH=/usr/sbin:/usr/bin:/sbin:/bin"
    ∷ codes "HOME=/"
    ∷ codes "LANG=C"
    ∷ codes "LC_ALL=C"
    ∷ []

launches : launch_env machine job settings ≡ ok launched
unfolding launch_env job_values validate hook_env check_spool_dir check_loader_env launch_values
    find_spool_root spool_shape is_job_spool
launches = refl

launch_env_ignores_example :
    launch_env machine (job ++ (codes "QRMI_URL=evil" ∷ [])) settings
    ≡ launch_env machine (job ++ []) settings
unfolding contains cut is_loader_key text_eq cut_prefix
launch_env_ignores_example =
    launch_env_ignores machine settings (codes "QRMI_URL=evil") job [] refl refl

launch_env-IsLaunched_example : IsLaunched machine settings job launched
launch_env-IsLaunched_example = launch_env-IsLaunched machine job settings launches

launch_env-IsHookVariable_example : All IsHookVariable launched
launch_env-IsHookVariable_example = launch_env-IsHookVariable machine job settings launches

own_spool_accepted :
    check_spool_dir machine (codes "/s/active_jobs/7.1") (codes "/s") (codes "7") [] ≡ ok tt
unfolding check_spool_dir spool_shape is_job_spool
own_spool_accepted = refl

check_spool_dir-IsOwnSpool_example :
    IsOwnSpool machine (codes "/s/active_jobs/7.1") (codes "/s") (codes "7") []
check_spool_dir-IsOwnSpool_example =
    check_spool_dir-IsOwnSpool machine (codes "/s/active_jobs/7.1") (codes "/s") (codes "7") []
      own_spool_accepted

abbrev no_job : Error
no_job = job_error (errorf "invalid JOB_ID" [])

fails_without_job : launch_env machine [] settings ≡ err no_job
unfolding launch_env job_values validate check_loader_env launch_values
fails_without_job = refl

launch_env_exit_example :
    (exit_code (some no_job) ≡ exit_job_error)
    ⊎ (exit_code (some no_job) ≡ exit_host_error) × (validate settings ≡ err no_job)
launch_env_exit_example = launch_env_exit machine [] settings fails_without_job

launch_env-loader_example :
    (e : Error) × (launch_env machine (codes "A=1" ∷ codes "LD_PRELOAD=x" ∷ []) settings ≡ err e)
    × (exit_code (some e) ≡ exit_job_error)
unfolding is_loader_key cut cut_prefix
launch_env-loader_example =
    launch_env-loader machine (codes "A=1" ∷ codes "LD_PRELOAD=x" ∷ []) settings (inr (inl refl))

prepare-option_words_example :
    prepare machine
      (codes "qrmi-ocs-launch")
      job
      (option_words settings ++ (codes "/h" ∷ codes "--config=/c" ∷ []))
    ≡ (do
      env ← launch_env machine job settings
      path ← trusted_hook machine (codes "/h")
      ok (record { path = path; argv = path ∷ codes "--config=/c" ∷ []; env = env }))
unfolding cut_prefix
prepare-option_words_example =
    prepare-option_words machine (codes "qrmi-ocs-launch") job settings (codes "/h")
      (codes "--config=/c" ∷ []) refl

-- Ranging in the order of insertion.
abbrev same_order : Dict Text → Dict Text
same_order values = values

same_order-IsTrusted :
    (values : Dict Text) → All IsTrusted values → All IsTrusted (same_order values)
same_order-IsTrusted values h = h

abbrev cleaned : List Text
cleaned =
    codes "JOB_ID=7"
    ∷ codes "PATH=/usr/sbin:/usr/bin:/sbin:/bin"
    ∷ codes "HOME=/"
    ∷ codes "LANG=C"
    ∷ codes "LC_ALL=C"
    ∷ []

cleans : clean_env same_order machine (codes "QRMI_URL=evil" ∷ codes "JOB_ID=7" ∷ []) ≡ ok cleaned
unfolding clean_env text_eq is_number
cleans = refl

clean_env-IsClean_example : All (IsClean machine) cleaned
clean_env-IsClean_example =
    clean_env-IsClean same_order machine same_order-IsTrusted
      (codes "QRMI_URL=evil" ∷ codes "JOB_ID=7" ∷ []) cleans

level_four : rust_log_from_debug (codes " 4 ") ≡ some (codes "debug")
unfolding rust_log_from_debug
level_four = refl

rust_log_from_debug-Means_example :
    Means (codes "4") (some (codes "debug"))
    × ((level : Text) → some (codes "debug") ≡ some level → rust_log_from_debug level ≡ some level)
unfolding rust_log_from_debug trim_space
rust_log_from_debug-Means_example = rust_log_from_debug-Means (codes " 4 ")
