-- ===== src/Scenarios.antt =====
-- Small workflows, stores and tokens on which the theorems are applied.
mod Workflows
mod Runs
mod Billing
mod Failures
mod Stores
mod Documents
mod Mongo
mod Servers
mod Callbacks
mod Jobs
mod Control
mod Cluster
mod Cleanup
mod Startup
mod Streams
