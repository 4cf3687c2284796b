-- ===== src/Controller/ClusterBinding.antt =====
-- internal/controller/clusterrbacgroupbinding_controller.go: the reconciler of cluster-wide bindings. It
-- takes the same steps as that of Controller.Binding, on ClusterRoleBindings.
pub mod Status
pub mod Sync
pub mod Reconcile
pub mod Frame
pub mod Outcome
pub mod Failsafe
pub mod Unscoped
pub mod Success
pub mod TestLaws
mod OutcomeTests
pub mod Tests
