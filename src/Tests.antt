-- ===== src/Tests.antt =====
-- Runs of the models on concrete inputs.
mod Leases
mod Uploads
mod Data
mod Registry
mod Links
mod Store
mod Tokens
mod Lifecycle
mod Scheduler
mod Foreground
