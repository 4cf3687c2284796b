-- ===== src/Controller/Binding/ReadBackTests.antt =====
-- The RoleBinding of a first run, read back.
use mathlib.Core.List.{Perm}
use directory_rbac_operator.Base.{pos, ◌≡◌, refl}
use directory_rbac_operator.Controller.Sample.{runtime, runtime_laws}
use directory_rbac_operator.Controller.Sample.Laws.{
  client_laws, keeps_role_bindings, keeps_bindings, reads_stored,
}
use directory_rbac_operator.Controller.Binding.Reconcile.{reconcile}
use directory_rbac_operator.Controller.Binding.ReadBack.{user_names, reconcile-user_names}
use directory_rbac_operator.Controller.Binding.Tests.{
  reconciler, answering-keeps, members, binding_key, empty, is_read, binding, provider, wanted,
  program,
}
use directory_rbac_operator.Go.Action.{ok}

reconcile-user_names_example :
    Perm (user_names runtime.constants wanted.subjects) members
    × (wanted.role_ref.kind ≡ binding.spec.role_ref.kind)
    × (wanted.role_ref.name ≡ binding.spec.role_ref.name)
unfolding program
reconcile-user_names_example =
    let r = reconciler (ok members) in
    reconcile-user_names r client_laws keeps_role_bindings (answering-keeps (ok members))
      keeps_bindings runtime_laws binding_key empty empty (reconcile r binding_key empty).1 binding
      provider (λ dn w. (ok members, w)) members (record { requeue_after = pos 60000000000 }) wanted
      reads_stored (is_read (ok members)) refl refl refl refl refl
