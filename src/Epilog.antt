-- ===== src/Epilog.antt =====
-- src/cmd/qrmi-ocs-epilog-go/main.go: the queue epilog, which gives the token of the job back and
-- appends to its accounting.
pub mod Release
pub mod Summary
pub mod Run
pub mod Main
pub mod Fate
