-- ===== src/Controller/Wanted.antt =====
-- What a binding asks for, in the words of the custom resources: the role that it names, for users.
use directory_rbac_operator.Base.{String, List, map}
use directory_rbac_operator.Kube.Objects.{Constants, RbacRoleRef, Subject}
use directory_rbac_operator.Api.{RbacGroupBinding, ClusterRbacGroupBinding}

module _ (k : Constants) where
  -- A user of the RBAC API, who is not in a namespace.
  abbrev pub user : String → Subject
  user name = record { kind = k.user_kind; api_group = k.group_name; name = name; namespace = "" }

  abbrev pub users : List String → List Subject
  users = map user

  -- The role that a binding names.
  abbrev pub named_role : RbacGroupBinding → RbacRoleRef
  named_role b = record {
    api_group = k.group_name;
    kind = b.spec.role_ref.kind;
    name = b.spec.role_ref.name;
  }

  -- The cluster role that a cluster-wide binding names.
  abbrev pub named_cluster_role : ClusterRbacGroupBinding → RbacRoleRef
  named_cluster_role b = record {
    api_group = k.group_name;
    kind = "ClusterRole";
    name = b.spec.cluster_role_ref;
  }
