-- ===== src/Controller.antt =====
-- internal/controller/solrcollectionset_controller.go: the reconciler.
pub mod Zip
pub mod Names
pub mod Collections
pub mod Replicas
pub mod Status
pub mod ConfigSets
pub mod Reconcile
