-- ===== src/Api.antt =====
-- The custom resources of api/v1alpha1, with the fields of each spec and status.
use directory_rbac_operator.Base.{ℕ, String, Bool, Option, List}
use directory_rbac_operator.Kube.Objects.{Timestamp, Duration, ObjectMeta, Condition}

-- conditions.go
abbrev pub condition_ready : String
condition_ready = "Ready"

abbrev pub condition_degraded : String
condition_degraded = "Degraded"

abbrev pub condition_group_not_found : String
condition_group_not_found = "GroupNotFound"

abbrev pub reason_sync_succeeded : String
reason_sync_succeeded = "SyncSucceeded"

abbrev pub reason_ldap_unreachable : String
reason_ldap_unreachable = "LDAPUnreachable"

abbrev pub reason_group_not_found : String
reason_group_not_found = "GroupNotFound"

abbrev pub reason_invalid_spec : String
reason_invalid_spec = "InvalidSpec"

-- rbacgroupbinding_types.go
pub record RoleRef : Type 0 where
  pub kind : String
  pub name : String

pub record RbacGroupBindingSpec : Type 0 where
  pub provider_ref : String
  pub group_dn : String
  pub role_ref : RoleRef

-- `MemberCount` is an int32; a nil `RoleBindingRef` is `none`, another holds the name it points at.
pub record RbacGroupBindingStatus : Type 0 where
  pub observed_generation : ℕ
  pub conditions : List Condition
  pub last_sync_time : Option Timestamp
  pub member_count : ℕ
  pub members_preview : List String
  pub members_truncated : Bool
  pub members_hash : String
  pub role_binding_ref : Option String

pub record RbacGroupBinding : Type 0 where
  pub meta : ObjectMeta
  pub spec : RbacGroupBindingSpec
  pub status : RbacGroupBindingStatus

-- clusterrbacgroupbinding_types.go
pub record ClusterRbacGroupBindingSpec : Type 0 where
  pub provider_ref : String
  pub group_dn : String
  pub cluster_role_ref : String

pub record ClusterRbacGroupBindingStatus : Type 0 where
  pub observed_generation : ℕ
  pub conditions : List Condition
  pub last_sync_time : Option Timestamp
  pub member_count : ℕ
  pub members_preview : List String
  pub members_truncated : Bool
  pub members_hash : String
  pub cluster_role_binding_ref : Option String

pub record ClusterRbacGroupBinding : Type 0 where
  pub meta : ObjectMeta
  pub spec : ClusterRbacGroupBindingSpec
  pub status : ClusterRbacGroupBindingStatus

-- ldapprovider_types.go
pub record SecretKeyRef : Type 0 where
  pub name : String
  pub key : String

pub record TlsConfig : Type 0 where
  pub ca_secret_ref : Option SecretKeyRef

abbrev pub directory_type_open_ldap : String
directory_type_open_ldap = "OpenLDAP"

abbrev pub directory_type_active_directory : String
directory_type_active_directory = "ActiveDirectory"

abbrev pub directory_type_free_ipa : String
directory_type_free_ipa = "FreeIPA"

pub record LdapProviderSpec : Type 0 where
  pub url : String
  pub bind_dn : String
  pub bind_password_secret_ref : SecretKeyRef
  pub tls_config : Option TlsConfig
  pub insecure_skip_tls : Bool
  pub user_search_base : String
  pub group_search_base : String
  pub sync_interval : Duration
  pub username_attribute : String
  pub directory_type : String

pub record LdapProviderStatus : Type 0 where
  pub observed_generation : ℕ
  pub conditions : List Condition
  pub last_verified_time : Option Timestamp

pub record LdapProvider : Type 0 where
  pub meta : ObjectMeta
  pub spec : LdapProviderSpec
  pub status : LdapProviderStatus
