-- ===== src/Kube/Objects.antt =====
-- Object types of k8s.io/api and k8s.io/apimachinery, with the fields that the operator reads or writes.
use directory_rbac_operator.Base.{ℕ, ℤ, ◌≢◌, String, Bool, true, Option, none, some, List, nat_eq}

-- metav1.Time counts from Go's zero time, which is 0.
abbrev pub Timestamp : Type 0
Timestamp = ℕ

-- (*metav1.Time).IsZero: nil and the zero time are both zero.
abbrev pub is_zero : Option Timestamp → Bool
is_zero none = true
is_zero (some t) = nat_eq t 0

-- time.Duration, in nanoseconds and signed.
abbrev pub Duration : Type 0
Duration = ℤ

-- types.NamespacedName, client.ObjectKey: the namespace of a cluster-scoped object is empty.
pub record ObjectKey : Type 0 where
  pub namespace : String
  pub name : String

pub record OwnerReference : Type 0 where
  pub api_version : String
  pub kind : String
  pub name : String
  pub uid : String

pub record ObjectMeta : Type 0 where
  pub name : String
  pub namespace : String
  pub uid : String
  pub resource_version : String
  pub generation : ℕ
  pub deletion_timestamp : Option Timestamp
  pub owner_references : List OwnerReference
  pub finalizers : List String

-- client.ObjectKeyFromObject
abbrev pub key_of : ObjectMeta → ObjectKey
key_of m = record { namespace = m.namespace; name = m.name }

-- metav1.Condition, whose type, status and reason are strings.
pub record Condition : Type 0 where
  pub type : String
  pub status : String
  pub reason : String
  pub message : String

-- rbacv1.Subject
pub record Subject : Type 0 where
  pub kind : String
  pub api_group : String
  pub name : String
  pub namespace : String

-- rbacv1.RoleRef
pub record RbacRoleRef : Type 0 where
  pub api_group : String
  pub kind : String
  pub name : String

pub record RoleBinding : Type 0 where
  pub meta : ObjectMeta
  pub subjects : List Subject
  pub role_ref : RbacRoleRef

pub record ClusterRoleBinding : Type 0 where
  pub meta : ObjectMeta
  pub subjects : List Subject
  pub role_ref : RbacRoleRef

-- corev1.Secret: `entries` is its map Data, with the bytes of a value as a string.
pub record Secret : Type 0 where
  pub meta : ObjectMeta
  pub entries : String → Option String

-- Constants of those packages: rbacv1.GroupName, rbacv1.UserKind, metav1.ConditionTrue and
-- metav1.ConditionFalse.
pub record Constants : Type 0 where
  pub group_name : String
  pub user_kind : String
  pub condition_true : String
  pub condition_false : String
  pub true_ne_false : condition_true ≢ condition_false
