-- ===== src/Webhook.antt =====
-- internal/webhook: the admission of bindings, which rejects one that maps a group to a role that another
-- binding maps it to already.
pub mod Check
pub mod Conflict
pub mod Decision
pub mod Unique
pub mod Setup
mod Tests
use directory_rbac_operator.Base.{String, ◌+++◌, ◌==◌, ◌&&◌, Bool, List}
use directory_rbac_operator.Go.Errors.{GoError}
use directory_rbac_operator.Go.Action.{Action, pure, ◌>>=◌, call, wrapping}
use directory_rbac_operator.Api.{RoleRef, RbacGroupBinding, ClusterRbacGroupBinding}
use directory_rbac_operator.Webhook.Check.{check}

-- `==` on RoleRef
unfoldable pub same_role : RoleRef → RoleRef → Bool
same_role a b = a.kind == b.kind && a.name == b.name

abbrev pub binding_name : RbacGroupBinding → String
binding_name b = b.meta.name

-- The condition of the loop: the same group, mapped to the same role.
unfoldable pub maps_same : RbacGroupBinding → RbacGroupBinding → Bool
maps_same existing binding =
    existing.spec.group_dn == binding.spec.group_dn
    && same_role existing.spec.role_ref binding.spec.role_ref

abbrev pub cluster_binding_name : ClusterRbacGroupBinding → String
cluster_binding_name b = b.meta.name

unfoldable pub cluster_maps_same : ClusterRbacGroupBinding → ClusterRbacGroupBinding → Bool
cluster_maps_same existing binding =
    existing.spec.group_dn == binding.spec.group_dn
    && existing.spec.cluster_role_ref == binding.spec.cluster_role_ref

unfoldable pub duplicate_text : (String → String) → RbacGroupBinding → RbacGroupBinding → String
duplicate_text quote existing binding =
    "groupDN "
    +++ (quote binding.spec.group_dn
        +++ (" is already mapped to roleRef "
            +++ (existing.spec.role_ref.kind
                +++ ("/"
                    +++ (existing.spec.role_ref.name
                        +++ (" by RBACGroupBinding "
                            +++ (quote existing.meta.name
                                +++ (" in namespace " +++ quote binding.meta.namespace))))))))

-- RBACGroupBindingValidator: `list` is List of the client in a namespace, `quote` the verb %q.
module _ {W E : Type 0} (quote : String → String)
    (list : String → Action W E (List RbacGroupBinding)) where
  unfoldable pub reject_duplicate : RbacGroupBinding → Action W (GoError E) (Unit {0})
  unfolding duplicate_text
  reject_duplicate binding = do
    items ←
        wrapping
          ("list existing RBACGroupBindings in namespace "
            +++ (quote binding.meta.namespace +++ ": "))
          "" (call (list binding.meta.namespace))
    check binding_name maps_same (duplicate_text quote) binding items

  unfoldable pub validate_create : RbacGroupBinding → Action W (GoError E) (Unit {0})
  validate_create binding = reject_duplicate binding

  unfoldable pub validate_update : (old new : RbacGroupBinding) → Action W (GoError E) (Unit {0})
  validate_update old new = reject_duplicate new

  unfoldable pub validate_delete : RbacGroupBinding → Action W (GoError E) (Unit {0})
  validate_delete binding = pure tt

unfoldable pub cluster_duplicate_text :
    (String → String) → ClusterRbacGroupBinding → ClusterRbacGroupBinding → String
cluster_duplicate_text quote existing binding =
    "groupDN "
    +++ (quote binding.spec.group_dn
        +++ (" is already mapped to clusterRoleRef "
            +++ (quote existing.spec.cluster_role_ref
                +++ (" by ClusterRBACGroupBinding " +++ quote existing.meta.name))))

-- ClusterRBACGroupBindingValidator: `list` lists every binding of the cluster.
module _ {W E : Type 0} (quote : String → String)
    (list : Action W E (List ClusterRbacGroupBinding)) where
  unfoldable pub reject_cluster_duplicate :
      ClusterRbacGroupBinding → Action W (GoError E) (Unit {0})
  unfolding cluster_duplicate_text
  reject_cluster_duplicate binding = do
    items ← wrapping "list existing ClusterRBACGroupBindings: " "" (call list)
    check cluster_binding_name cluster_maps_same (cluster_duplicate_text quote) binding items

  unfoldable pub validate_cluster_create : ClusterRbacGroupBinding → Action W (GoError E) (Unit {0})
  validate_cluster_create binding = reject_cluster_duplicate binding

  unfoldable pub validate_cluster_update :
      (old new : ClusterRbacGroupBinding) → Action W (GoError E) (Unit {0})
  validate_cluster_update old new = reject_cluster_duplicate new

  unfoldable pub validate_cluster_delete : ClusterRbacGroupBinding → Action W (GoError E) (Unit {0})
  validate_cluster_delete binding = pure tt
