-- ===== src/Rbacsync.antt =====
-- internal/rbacsync: the RBAC objects that are wanted for a resolved group, and how they are compared.
pub mod Diff
mod Tests
use directory_rbac_operator.Base.{String, List, [], none, map}
use directory_rbac_operator.Kube.Objects.{
  Constants, ObjectMeta, Subject, RoleBinding, ClusterRoleBinding,
}
use directory_rbac_operator.Api.{RbacGroupBinding, ClusterRbacGroupBinding}

-- An ObjectMeta literal leaves the fields that it does not name at their zero values.
abbrev named : String → String → ObjectMeta
named name namespace = record {
  name = name;
  namespace = namespace;
  uid = "";
  resource_version = "";
  generation = 0;
  deletion_timestamp = none;
  owner_references = [];
  finalizers = [];
}

module _ (k : Constants) where
  -- Subjects
  unfoldable pub subjects : List String → List Subject
  subjects members =
      map (λ m. record { kind = k.user_kind; api_group = k.group_name; name = m; namespace = "" })
        members

  -- BuildRoleBinding
  unfoldable pub build_role_binding : RbacGroupBinding → List String → RoleBinding
  build_role_binding binding members = record {
    meta = named binding.meta.name binding.meta.namespace;
    role_ref = record {
      api_group = k.group_name;
      kind = binding.spec.role_ref.kind;
      name = binding.spec.role_ref.name;
    };
    subjects = subjects members;
  }

  -- BuildClusterRoleBinding
  unfoldable pub build_cluster_role_binding :
      ClusterRbacGroupBinding → List String → ClusterRoleBinding
  build_cluster_role_binding binding members = record {
    meta = named binding.meta.name "";
    role_ref = record {
      api_group = k.group_name;
      kind = "ClusterRole";
      name = binding.spec.cluster_role_ref;
    };
    subjects = subjects members;
  }
