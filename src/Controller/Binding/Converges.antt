-- ===== src/Controller/Binding/Converges.antt =====
-- Reconcile has to succeed when nothing fails.
use directory_rbac_operator.Go.Action.Succeeds.{Success, Succeeds}
