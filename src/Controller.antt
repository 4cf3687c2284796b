-- ===== src/Controller.antt =====
-- internal/controller: the reconcilers.
pub mod Common
pub mod Laws
pub mod Wanted
pub mod Quiet
pub mod Conditions
pub mod Stored
pub mod Resolving
pub mod Sample
pub mod Binding
pub mod ClusterBinding
pub mod Provider
pub mod Factory
pub mod Watches
pub mod Setup
pub mod Readiness
