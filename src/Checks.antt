-- ===== src/Checks.antt =====
-- Runs of the model at concrete inputs, and the theorems there.
mod Values
mod Cluster
mod Resource
mod QueueHooks
mod Commands
mod Qrmi
mod Hooks
mod Launch
mod Metadata
mod LoadSensor
mod Adapter
