-- ===== src/Controller.antt =====
-- vmray-cluster-operator/internal/controller/vmraycluster_controller.go and
-- vmraycluster_controller_utils.go: the reconciler. Its parts are below: finalizer and nonce,
-- validation of dependencies, workers, the head node, deletion, and the reconcile loop.
pub mod State
pub mod Finalizer
pub mod Dependencies
pub mod Workers
pub mod Reconcile
