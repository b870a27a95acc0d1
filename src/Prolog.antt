-- ===== src/Prolog.antt =====
-- src/cmd/qrmi-ocs-prolog-go/main.go: the queue prolog, which acquires a token for the backend
-- that the scheduler granted and leaves it for the job and for the epilog.
pub mod Codes
pub mod Request
pub mod Scheduler
pub mod Acquire
pub mod Run
pub mod Main
pub mod Verdict
pub mod Tokens
