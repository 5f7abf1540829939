-- ===== src/System.antt =====
-- The operator beside the API server's storage: runs of `Reconcile` and of everybody else.
pub mod Store
pub mod Round
pub mod Run
