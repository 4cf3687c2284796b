-- ===== src/Kube/Client.antt =====
-- sigs.k8s.io/controller-runtime/pkg/client: the calls that the reconcilers of bindings and providers
-- make, as parameters over the outside world `W` and the errors `E`.
use directory_rbac_operator.Base.{ℕ, String, ◌≡◌, ◌≢◌, ◌⊎◌, Bool, Option, none, some, List}
use directory_rbac_operator.Go.Action.{Action, ok}
use directory_rbac_operator.Go.Action.Keeps.{Keeps}
use directory_rbac_operator.Kube.Objects.{
  ObjectKey, key_of, RoleBinding, ClusterRoleBinding, Secret,
}
use directory_rbac_operator.Api.{RbacGroupBinding, ClusterRbacGroupBinding, LdapProvider}

pub record Client (W E : Type 0) : Type 0 where
  -- apierrors.IsNotFound
  pub is_not_found : E → Bool
  pub get_binding : ObjectKey → Action W E RbacGroupBinding
  pub update_binding_status : RbacGroupBinding → Action W E (Unit {0})
  pub get_cluster_binding : ObjectKey → Action W E ClusterRbacGroupBinding
  pub update_cluster_binding_status : ClusterRbacGroupBinding → Action W E (Unit {0})
  pub get_role_binding : ObjectKey → Action W E RoleBinding
  pub create_role_binding : RoleBinding → Action W E (Unit {0})
  pub update_role_binding : RoleBinding → Action W E (Unit {0})
  pub delete_role_binding : RoleBinding → Action W E (Unit {0})
  pub get_cluster_role_binding : ObjectKey → Action W E ClusterRoleBinding
  pub create_cluster_role_binding : ClusterRoleBinding → Action W E (Unit {0})
  pub update_cluster_role_binding : ClusterRoleBinding → Action W E (Unit {0})
  pub delete_cluster_role_binding : ClusterRoleBinding → Action W E (Unit {0})
  pub get_provider : ObjectKey → Action W E LdapProvider
  -- Update fills in the object that it is given, such as its new resource version.
  pub update_provider : LdapProvider → Action W E LdapProvider
  pub update_provider_status : LdapProvider → Action W E (Unit {0})
  pub get_secret : ObjectKey → Action W E Secret
  -- List with client.MatchingFields on the index of providerRef, and with the limit, 0 for none.
  pub list_bindings_of : (provider : String) → (limit : ℕ) → Action W E (List RbacGroupBinding)
  pub list_cluster_bindings_of :
      (provider : String) → (limit : ℕ) → Action W E (List ClusterRbacGroupBinding)
  -- the same on the index of the secrets
  pub list_providers_of : (secret : String) → Action W E (List LdapProvider)

-- Secrets as they are stored: reads change nothing the view shows, and answer with what is stored.
pub record SecretStore {W E : Type 0} (c : Client W E) : Type 0 where
  pub secrets : W → ObjectKey → Option Secret
  pub get_secret-Keeps : (key : ObjectKey) → Keeps secrets (c.get_secret key)
  pub get_secret-stored :
      (key : ObjectKey) (w : W) (secret : Secret)
      → (c.get_secret key w).0 ≡ ok secret
      → secrets w key ≡ some secret

-- What the API server keeps of a RoleBinding that it is sent: it fills in other fields itself.
pub record SameContent (sent stored : RoleBinding) : Type 0 where
  pub same_subjects : stored.subjects ≡ sent.subjects
  pub same_role_ref : stored.role_ref ≡ sent.role_ref
  pub same_owners : stored.meta.owner_references ≡ sent.meta.owner_references

-- A successful write of one RoleBinding: it is stored, and every other is as before.
pub record Wrote (sent : RoleBinding) (before after : ObjectKey → Option RoleBinding) : Type 0 where
  pub stored : RoleBinding
  pub at_key : after (key_of sent.meta) ≡ some stored
  pub content : SameContent sent stored
  pub elsewhere : (key : ObjectKey) → key ≢ key_of sent.meta → after key ≡ before key

-- What the operator relies on of the API server, as it is documented: reads change nothing, a write of
-- a status changes no RoleBinding, and a write that is reported as successful has taken place. Of
-- a write that failed nothing is assumed.
pub record ClientLaws {W E : Type 0} (c : Client W E) : Type 0 where
  pub role_bindings : W → ObjectKey → Option RoleBinding
  pub bindings : W → ObjectKey → Option RbacGroupBinding
  pub get_binding-keeps : (key : ObjectKey) → Keeps role_bindings (c.get_binding key)
  pub get_provider-keeps : (key : ObjectKey) → Keeps role_bindings (c.get_provider key)
  pub get_role_binding-keeps : (key : ObjectKey) → Keeps role_bindings (c.get_role_binding key)
  pub update_binding_status-keeps :
      (b : RbacGroupBinding) → Keeps role_bindings (c.update_binding_status b)
  pub create_role_binding-wrote :
      (rb : RoleBinding) (w : W)
      → (c.create_role_binding rb w).0 ≡ ok tt
      → Wrote rb (role_bindings w) (role_bindings (c.create_role_binding rb w).1)
  pub update_role_binding-wrote :
      (rb : RoleBinding) (w : W)
      → (c.update_role_binding rb w).0 ≡ ok tt
      → Wrote rb (role_bindings w) (role_bindings (c.update_role_binding rb w).1)
  pub delete_role_binding-gone :
      (rb : RoleBinding) (w : W)
      → (c.delete_role_binding rb w).0 ≡ ok tt
      → role_bindings (c.delete_role_binding rb w).1 (key_of rb.meta) ≡ none
  pub delete_role_binding-elsewhere :
      (rb : RoleBinding) (w : W) (key : ObjectKey)
      → key ≢ key_of rb.meta
      → role_bindings (c.delete_role_binding rb w).1 key ≡ role_bindings w key
  pub create_role_binding-elsewhere :
      (rb : RoleBinding) (w : W) (key : ObjectKey)
      → key ≢ key_of rb.meta
      → role_bindings (c.create_role_binding rb w).1 key ≡ role_bindings w key
  pub update_role_binding-elsewhere :
      (rb : RoleBinding) (w : W) (key : ObjectKey)
      → key ≢ key_of rb.meta
      → role_bindings (c.update_role_binding rb w).1 key ≡ role_bindings w key
  pub get_role_binding-key :
      (key : ObjectKey) (w : W) (rb : RoleBinding)
      → (c.get_role_binding key w).0 ≡ ok rb
      → key_of rb.meta ≡ key
  -- the status subresource takes the status and nothing else
  pub update_binding_status-stored :
      (b : RbacGroupBinding) (w : W)
      → (c.update_binding_status b w).0 ≡ ok tt
      → (stored : RbacGroupBinding) × (bindings (c.update_binding_status b w).1 (key_of b.meta)
          ≡ some stored)
        × (stored.status ≡ b.status)

-- A write is atomic: also one that is reported as failed, say because the answer was lost, has either taken place or
-- changed nothing.
pub record AtomicWrites {W E : Type 0} (c : Client W E)
    (role_bindings : W → ObjectKey → Option RoleBinding) : Type 0 where
  pub create_role_binding-atomic :
      (rb : RoleBinding) (w : W)
      → let after = role_bindings (c.create_role_binding rb w).1 in
        Wrote rb (role_bindings w) after ⊎ (after ≡ role_bindings w)
  pub update_role_binding-atomic :
      (rb : RoleBinding) (w : W)
      → let after = role_bindings (c.update_role_binding rb w).1 in
        Wrote rb (role_bindings w) after ⊎ (after ≡ role_bindings w)
  pub delete_role_binding-atomic :
      (rb : RoleBinding) (w : W)
      → let after = role_bindings (c.delete_role_binding rb w).1 in
        (after (key_of rb.meta) ≡ none) ⊎ (after ≡ role_bindings w)

-- The same of ClusterRoleBindings: reads and a write of a status change none.
pub record ClusterClientKeeps {W E : Type 0} (c : Client W E) : Type 0 where
  pub cluster_role_bindings : W → ObjectKey → Option ClusterRoleBinding
  pub get_cluster_binding-keeps :
      (key : ObjectKey) → Keeps cluster_role_bindings (c.get_cluster_binding key)
  pub get_provider-keeps : (key : ObjectKey) → Keeps cluster_role_bindings (c.get_provider key)
  pub update_cluster_binding_status-keeps :
      (b : ClusterRbacGroupBinding)
      → Keeps cluster_role_bindings (c.update_cluster_binding_status b)

-- ClusterRBACGroupBindings as they are stored: the status subresource takes the status and nothing else.
pub record ClusterBindingStore {W E : Type 0} (c : Client W E) : Type 0 where
  pub bindings : W → ObjectKey → Option ClusterRbacGroupBinding
  pub update_cluster_binding_status-stored :
      (b : ClusterRbacGroupBinding) (w : W)
      → (c.update_cluster_binding_status b w).0 ≡ ok tt
      → (stored : ClusterRbacGroupBinding) × (bindings
            (c.update_cluster_binding_status b w).1
            (key_of b.meta)
          ≡ some stored)
        × (stored.status ≡ b.status)

-- Providers as they are stored: the status subresource takes the status and nothing else.
pub record ProviderStore {W E : Type 0} (c : Client W E) : Type 0 where
  pub providers : W → ObjectKey → Option LdapProvider
  pub update_provider_status-stored :
      (p : LdapProvider) (w : W)
      → (c.update_provider_status p w).0 ≡ ok tt
      → (stored : LdapProvider) × (providers (c.update_provider_status p w).1 (key_of p.meta)
          ≡ some stored)
        × (stored.status ≡ p.status)

-- Update takes the finalizers as they are sent. An object that is being deleted is gone when none is left.
pub record ProviderUpdates {W E : Type 0} (c : Client W E) : Type 0 where
  pub providers : W → ObjectKey → Option LdapProvider
  pub update_provider-stored :
      (p : LdapProvider) (w : W) (sent stored : LdapProvider)
      → (c.update_provider p w).0 ≡ ok sent
      → providers (c.update_provider p w).1 (key_of p.meta) ≡ some stored
      → stored.meta.finalizers ≡ p.meta.finalizers

-- GetFieldIndexer().IndexField, for the objects and fields that are indexed.
pub record FieldIndexer (W E : Type 0) : Type 0 where
  pub index_bindings : String → (RbacGroupBinding → List String) → Action W E (Unit {0})
  pub index_cluster_bindings :
      String → (ClusterRbacGroupBinding → List String) → Action W E (Unit {0})
  pub index_providers : String → (LdapProvider → List String) → Action W E (Unit {0})
