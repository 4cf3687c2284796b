-- ===== src/Controller/Binding/AccessTests.antt =====
-- Runs of the reconciler as steps of access, and one that has to succeed.
use directory_rbac_operator.Base.{◌≡◌, ◌⊎◌}
use directory_rbac_operator.Go.Action.{ok}
use directory_rbac_operator.Kube.Objects.{key_of}
use directory_rbac_operator.Controller.Sample.{runtime_laws}
use directory_rbac_operator.Controller.Sample.Laws.{
  client_laws, keeps_role_bindings, keeps_bindings, reads_stored, atomic_writes,
}
use directory_rbac_operator.Controller.Binding.Reconcile.{reconcile}
use directory_rbac_operator.Controller.Binding.Frame.{HasResolved}
use directory_rbac_operator.Controller.Binding.Tests.{
  reconciler, answering-keeps, members, binding_key, empty, binding,
}
use directory_rbac_operator.Controller.Binding.Access.{AccessStep, access}
use directory_rbac_operator.Controller.Binding.Refines.{wanted_grant, reconcile-AccessStep}

reconcile-AccessStep_example :
    let r = reconciler (ok members) in
    let after = (reconcile r binding_key empty).1 in
    (access after.role_bindings ≡ access empty.role_bindings)
    ⊎ ((h : HasResolved r binding_key empty) × AccessStep
          (key_of h.binding.meta)
          (wanted_grant r client_laws atomic_writes keeps_role_bindings
            (answering-keeps (ok members))
            keeps_bindings
            runtime_laws
            h.binding
            h.has_members.members)
          (access empty.role_bindings)
          (access after.role_bindings))
reconcile-AccessStep_example =
    reconcile-AccessStep (reconciler (ok members)) client_laws atomic_writes keeps_role_bindings
      (answering-keeps (ok members)) keeps_bindings runtime_laws binding_key empty reads_stored
