-- ===== src/Kube.antt =====
-- Kubernetes: the object types of its API packages, the client through which the operator works, and
-- the helpers of its libraries.
pub mod Objects
pub mod Client
pub mod Runtime
