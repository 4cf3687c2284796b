-- ===== src/Controller/ClusterBinding/Sync.antt =====
-- internal/controller/clusterrbacgroupbinding_controller.go: reconcileClusterRoleBinding, which brings the ClusterRoleBinding
-- to what is wanted.
use directory_rbac_operator.Base.{not, ◌&&◌, if◌then◌else◌}
use directory_rbac_operator.Go.Errors.{GoError, foreign_test}
use directory_rbac_operator.Go.Action.{Result, ok, err, Action, pure, fail, try, ◌>>=◌, ◌>>◌, call}
use directory_rbac_operator.Kube.Objects.{key_of, ClusterRoleBinding}
use directory_rbac_operator.Rbacsync.Diff.{subjects_equal}
use directory_rbac_operator.Controller.Common.{
  SyncOutcome, sync_unchanged, sync_created, sync_updated, sync_recreated, same_role_ref,
}
use directory_rbac_operator.Controller.ClusterBinding.Status.{ClusterRbacGroupBindingReconciler}

-- `existing` with the wanted subjects and owner references.
unfoldable pub with_subjects : ClusterRoleBinding → ClusterRoleBinding → ClusterRoleBinding
with_subjects existing desired =
    let meta = existing.meta in
    record existing {
      meta = record meta { owner_references = desired.meta.owner_references };
      subjects = desired.subjects;
    }

module _ {W E : Type 0} (r : ClusterRbacGroupBindingReconciler W E) where
  open r use {client, runtime}

  -- The ClusterRoleBinding exists and its RoleRef is the wanted one.
  unfoldable pub sync_subjects :
      ClusterRoleBinding → ClusterRoleBinding → Action W (GoError E) SyncOutcome
  sync_subjects desired existing =
      if subjects_equal runtime.subject_sorter existing.subjects desired.subjects
        && runtime.same_owner_references existing.meta.owner_references
            desired.meta.owner_references
      then pure sync_unchanged
      else (do
        call (client.update_cluster_role_binding (with_subjects existing desired))
        pure sync_updated)

  -- A RoleRef is immutable: the ClusterRoleBinding is deleted and created anew.
  unfoldable pub recreate :
      ClusterRoleBinding → ClusterRoleBinding → Action W (GoError E) SyncOutcome
  recreate desired existing = do
    call (client.delete_cluster_role_binding existing)
    call (client.create_cluster_role_binding desired)
    pure sync_recreated

  unfoldable pub create : ClusterRoleBinding → Action W (GoError E) SyncOutcome
  create desired = do call (client.create_cluster_role_binding desired); pure sync_created

  -- The cases on what Get answered.
  unfoldable pub sync_found :
      ClusterRoleBinding → Result (GoError E) ClusterRoleBinding → Action W (GoError E) SyncOutcome
  sync_found desired (err e) = if foreign_test client.is_not_found e then create desired else fail e
  sync_found desired (ok existing) =
      if not (same_role_ref existing.role_ref desired.role_ref)
      then recreate desired existing
      else sync_subjects desired existing

  -- reconcileClusterRoleBinding
  unfoldable pub reconcile_cluster_role_binding :
      ClusterRoleBinding → Action W (GoError E) SyncOutcome
  reconcile_cluster_role_binding desired = do
    found ← try (call (client.get_cluster_role_binding (key_of desired.meta)))
    sync_found desired found
