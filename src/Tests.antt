-- ===== src/Tests.antt =====
-- Runs on a small platform, and the theorems at concrete data.
mod Data
mod Defaults
mod Collections
mod Replicas
mod Reported
mod Status
mod ConfigSets
mod Reconcile
mod Cluster
mod Scaling
mod Blocked
mod Deployment
mod Converging
mod Zip
mod Quiet
mod Stored
mod Separated
mod Answered
mod Repeated
mod Starting
mod Settled
mod ConfigStore
