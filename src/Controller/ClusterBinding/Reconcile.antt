-- ===== src/Controller/ClusterBinding/Reconcile.antt =====
-- internal/controller/clusterrbacgroupbinding_controller.go: Reconcile, case by case on what each call answered.
use directory_rbac_operator.Base.{pos, String, ◌+++◌, List, length, if◌then◌else◌}
use directory_rbac_operator.Go.Errors.{GoError, plain, foreign, is_group_not_found, foreign_test}
use directory_rbac_operator.Go.Action.{
  Result, ok, err, Action, pure, fail, try, of_result, deferring, perform, ◌>>=◌, ◌>>◌, with_error,
  call,
}
use directory_rbac_operator.Kube.Objects.{ObjectKey, key_of, ClusterRoleBinding}
use directory_rbac_operator.Metrics.{sync_duration}
use directory_rbac_operator.Api.{ClusterRbacGroupBinding, LdapProvider}
use directory_rbac_operator.Rbacsync.{build_cluster_role_binding}
use directory_rbac_operator.Controller.Common.{
  Grouper, ReconcileResult, SyncOutcome, sync_unchanged, sync_created, sync_updated, sync_recreated,
  record_success,
}
use directory_rbac_operator.Controller.ClusterBinding.Status.{
  ClusterRbacGroupBindingReconciler, cluster_rbac_group_binding_kind, mark_ready, mark_degraded,
  mark_group_not_found,
}
use directory_rbac_operator.Controller.ClusterBinding.Sync.{reconcile_cluster_role_binding}

module _ {W E : Type 0} (r : ClusterRbacGroupBindingReconciler W E) where
  open r use {client, runtime, grouper}

  abbrev success : ClusterRbacGroupBinding → String → String → Action W (GoError E) (Unit {0})
  success binding reason note =
      perform
        (record_success runtime cluster_rbac_group_binding_kind (key_of binding.meta) reason note)

  -- The event that Reconcile records for an outcome.
  unfoldable pub report :
      ClusterRbacGroupBinding → String → List String → SyncOutcome → Action W (GoError E) (Unit {0})
  report binding name members sync_unchanged = pure tt
  report binding name members sync_created = success binding "ClusterRoleBindingCreated" (
      "created ClusterRoleBinding "
      +++ (name +++ (" with " +++ (runtime.decimal (length members) +++ " member(s)"))))
  report binding name members sync_updated = success binding "ClusterRoleBindingUpdated" (
      "updated ClusterRoleBinding "
      +++ (name +++ (" to " +++ (runtime.decimal (length members) +++ " member(s)"))))
  report binding name members sync_recreated =
      success binding "ClusterRoleBindingRecreated"
        ("recreated ClusterRoleBinding " +++ (name +++ " (clusterRoleRef changed)"))

  unfoldable pub on_outcome :
      ClusterRbacGroupBinding
      → LdapProvider
      → List String
      → ClusterRoleBinding
      → Result (GoError E) SyncOutcome
      → Action W (GoError E) ReconcileResult
  on_outcome binding provider members desired (err e) = mark_degraded r binding e
  on_outcome binding provider members desired (ok outcome) = do
    report binding desired.meta.name members outcome
    mark_ready r binding members provider.spec.sync_interval

  -- The owner reference, then the ClusterRoleBinding itself.
  unfoldable pub apply_members :
      ClusterRbacGroupBinding → LdapProvider → List String → Action W (GoError E) ReconcileResult
  apply_members binding provider members = do
    desired ← of_result (
        with_error foreign (
          runtime.own_cluster_role_binding binding
            (build_cluster_role_binding runtime.constants binding members)))
    outcome ← try (reconcile_cluster_role_binding r desired)
    on_outcome binding provider members desired outcome

  unfoldable pub on_members :
      ClusterRbacGroupBinding
      → LdapProvider
      → Result (GoError E) (List String)
      → Action W (GoError E) ReconcileResult
  on_members binding provider (ok members) = apply_members binding provider members
  on_members binding provider (err e) =
      if is_group_not_found e
      then mark_group_not_found r binding provider.spec.sync_interval
      else mark_degraded r binding e

  unfoldable pub on_grouper :
      ClusterRbacGroupBinding
      → LdapProvider
      → Result (GoError E) (Grouper W E)
      → Action W (GoError E) ReconcileResult
  on_grouper binding provider (err e) = mark_degraded r binding e
  on_grouper binding provider (ok get_group_members) = do
    members ← try (get_group_members binding.spec.group_dn)
    on_members binding provider members

  unfoldable pub on_provider :
      ClusterRbacGroupBinding
      → Result (GoError E) LdapProvider
      → Action W (GoError E) ReconcileResult
  on_provider binding (err e) =
      if foreign_test client.is_not_found e
      then mark_degraded r binding
          (plain ("LDAPProvider " +++ (runtime.quote binding.spec.provider_ref +++ " not found")))
      else fail e
  on_provider binding (ok provider) = do
    found ← try (grouper provider)
    on_grouper binding provider found

  unfoldable pub on_binding :
      Result (GoError E) ClusterRbacGroupBinding → Action W (GoError E) ReconcileResult
  on_binding (err e) =
      -- client.IgnoreNotFound
      if foreign_test client.is_not_found e then pure (record { requeue_after = pos 0 }) else fail e
  on_binding (ok binding) = do
    provider ←
        try
          (call (client.get_provider (record { namespace = ""; name = binding.spec.provider_ref })))
    on_provider binding provider

  -- Reconcile
  unfoldable pub reconcile : ObjectKey → Action W (GoError E) ReconcileResult
  reconcile req =
      deferring (runtime.observe (sync_duration cluster_rbac_group_binding_kind))
        (do binding ← try (call (client.get_cluster_binding req)); on_binding binding)
