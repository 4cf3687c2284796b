-- ===== src/Webhook/Conflict.antt =====
-- internal/webhook: when two bindings map the same group to the same role, in the words of the custom resources.
use directory_rbac_operator.Base.{arith, ◌≡◌, ◌≢◌, ◌↔◌, false, eq_iff}
use directory_rbac_operator.Api.{RbacGroupBinding, ClusterRbacGroupBinding}
use directory_rbac_operator.Webhook.{maps_same, same_role, cluster_maps_same}

-- The same group, and a role of the same kind and name.
abbrev pub MapsSame : RbacGroupBinding → RbacGroupBinding → Type 0
MapsSame a b =
    (a.spec.group_dn ≡ b.spec.group_dn)
    × (a.spec.role_ref.kind ≡ b.spec.role_ref.kind)
    × (a.spec.role_ref.name ≡ b.spec.role_ref.name)

-- The same group, and the same cluster role.
abbrev pub ClusterMapsSame : ClusterRbacGroupBinding → ClusterRbacGroupBinding → Type 0
ClusterMapsSame a b =
    (a.spec.group_dn ≡ b.spec.group_dn) × (a.spec.cluster_role_ref ≡ b.spec.cluster_role_ref)

-- The two bindings may be listed beside each other: they have one name, or do not conflict.
abbrev pub Compatible : RbacGroupBinding → RbacGroupBinding → Type 0
Compatible b x = x.meta.name ≢ b.meta.name → ¬ MapsSame x b

abbrev pub ClusterCompatible : ClusterRbacGroupBinding → ClusterRbacGroupBinding → Type 0
ClusterCompatible b x = x.meta.name ≢ b.meta.name → ¬ ClusterMapsSame x b

pub maps_same-MapsSame : (a b : RbacGroupBinding) → (maps_same a b ≡ false) ↔ (¬ MapsSame a b)
unfolding maps_same same_role
maps_same-MapsSame a b = ground (
  arith,
  eq_iff a.spec.group_dn b.spec.group_dn,
  eq_iff a.spec.role_ref.kind b.spec.role_ref.kind,
  eq_iff a.spec.role_ref.name b.spec.role_ref.name,
)

pub cluster_maps_same-ClusterMapsSame :
    (a b : ClusterRbacGroupBinding) → (cluster_maps_same a b ≡ false) ↔ (¬ ClusterMapsSame a b)
unfolding cluster_maps_same
cluster_maps_same-ClusterMapsSame a b = ground (
  arith,
  eq_iff a.spec.group_dn b.spec.group_dn,
  eq_iff a.spec.cluster_role_ref b.spec.cluster_role_ref,
)
