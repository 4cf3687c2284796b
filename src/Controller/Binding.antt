-- ===== src/Controller/Binding.antt =====
-- internal/controller/rbacgroupbinding_controller.go: the reconciler that keeps a RoleBinding's subjects
-- equal to a group's members.
pub mod Status
pub mod Sync
pub mod Reconcile
pub mod Frame
pub mod InSync
pub mod Outcome
pub mod Failsafe
pub mod Success
pub mod ReadBack
pub mod Recreate
pub mod Counts
pub mod Access
pub mod Steps
pub mod Refines
pub mod Serving
pub mod Converges
mod AccessTests
mod ReadBackTests
mod CountsTests
pub mod Tests
