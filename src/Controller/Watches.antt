-- ===== src/Controller/Watches.antt =====
-- internal/controller/mappers.go and indexers.go: which bindings are reconciled again when a provider or a secret has
-- changed, and the field indexes that the listings use.
pub mod Indexes
pub mod Loop
pub mod Reach
pub mod Tests
use directory_rbac_operator.Base.{String, Option, none, some, List, [], ◌∷◌, ◌++◌, map}
use directory_rbac_operator.Go.Errors.{GoError}
use directory_rbac_operator.Go.Action.{Result, ok, err, Action, ◌>>=◌, ◌>>◌, call}
use directory_rbac_operator.Kube.Objects.{ObjectKey, key_of, ObjectMeta, Secret}
use directory_rbac_operator.Kube.Client.{Client, FieldIndexer}
use directory_rbac_operator.Api.{
  LdapProvider, RbacGroupBinding, ClusterRbacGroupBinding, TlsConfig, SecretKeyRef,
}

-- client.Object, by the types that a mapper may be given.
pub data WatchedObject : Type 0 where
  provider_object : LdapProvider → WatchedObject
  secret_object : Secret → WatchedObject
  other_object : ObjectMeta → WatchedObject

-- GetName
unfoldable pub get_name : WatchedObject → String
get_name (provider_object p) = p.meta.name
get_name (secret_object s) = s.meta.name
get_name (other_object meta) = meta.name

-- handler.MapFunc: reconcile.Request holds the key of an object.
abbrev pub MapFunc : Type 0 → Type 0
MapFunc W = WatchedObject → W → List ObjectKey × W

abbrev pub provider_ref_index_field : String
provider_ref_index_field = ".spec.providerRef"

abbrev pub secret_ref_index_field : String
secret_ref_index_field = ".spec.secretRefs"

-- The functions that SetupIndexers registers.
unfoldable pub binding_index : RbacGroupBinding → List String
binding_index b = b.spec.provider_ref ∷ []

unfoldable pub cluster_binding_index : ClusterRbacGroupBinding → List String
cluster_binding_index b = b.spec.provider_ref ∷ []

-- The name of the secret with the CA bundle, appended where there is one.
unfoldable pub name_of : Option SecretKeyRef → List String
name_of none = []
name_of (some ref) = ref.name ∷ []

unfoldable pub ca_names : Option TlsConfig → List String
unfolding name_of
ca_names none = []
ca_names (some tls) = name_of tls.ca_secret_ref

unfoldable pub provider_index : LdapProvider → List String
unfolding ca_names
provider_index p = (p.spec.bind_password_secret_ref.name ∷ []) ++ ca_names p.spec.tls_config

unfoldable pub setup_indexers : {W E : Type 0} → FieldIndexer W E → Action W (GoError E) (Unit {0})
setup_indexers indexer = do
  call (indexer.index_bindings provider_ref_index_field binding_index)
  call (indexer.index_cluster_bindings provider_ref_index_field cluster_binding_index)
  call (indexer.index_providers secret_ref_index_field provider_index)

-- The requests for what was listed, and none where the listing failed.
unfoldable pub requests_of : {E B : Type 0} → (B → ObjectKey) → Result E (List B) → List ObjectKey
requests_of key (ok items) = map key items
requests_of key (err e) = []

module _ {W E : Type 0} (c : Client W E) where
  unfoldable pub map_provider_to_rbac_group_bindings : MapFunc W
  map_provider_to_rbac_group_bindings (provider_object p) w =
      let (listed, w') = c.list_bindings_of p.meta.name 0 w in
      (requests_of (λ b. key_of b.meta) listed, w')
  map_provider_to_rbac_group_bindings (secret_object s) w = ([], w)
  map_provider_to_rbac_group_bindings (other_object meta) w = ([], w)

  unfoldable pub map_provider_to_cluster_rbac_group_bindings : MapFunc W
  map_provider_to_cluster_rbac_group_bindings (provider_object p) w =
      let (listed, w') = c.list_cluster_bindings_of p.meta.name 0 w in
      (requests_of (λ b. key_of b.meta) listed, w')
  map_provider_to_cluster_rbac_group_bindings (secret_object s) w = ([], w)
  map_provider_to_cluster_rbac_group_bindings (other_object meta) w = ([], w)

  unfoldable pub listed_or_nil : Result E (List LdapProvider) → List LdapProvider
  listed_or_nil (ok items) = items
  listed_or_nil (err e) = []

  unfoldable pub providers_referencing_secret : String → W → List LdapProvider × W
  unfolding listed_or_nil
  providers_referencing_secret name w =
      let (listed, w') = c.list_providers_of name w in (listed_or_nil listed, w')

-- The loop of the mappers from a secret: a provider whose bindings cannot be listed is passed over.
unfoldable pub requests_for :
    {W E B : Type 0}
    → (B → ObjectKey)
    → (String → Action W E (List B))
    → List LdapProvider
    → W
    → List ObjectKey × W
unfolding requests_of
requests_for key list [] w = ([], w)
requests_for key list (p ∷ providers) w =
    let (listed, w') = list p.meta.name w in
    let (rest, w'') = requests_for key list providers w' in (requests_of key listed ++ rest, w'')

module _ {W E : Type 0} (c : Client W E) where
  unfoldable pub map_secret_to_rbac_group_bindings : MapFunc W
  map_secret_to_rbac_group_bindings obj w =
      let (providers, w') = providers_referencing_secret c (get_name obj) w in
      requests_for (λ b. key_of b.meta) (λ name. c.list_bindings_of name 0) providers w'

  unfoldable pub map_secret_to_cluster_rbac_group_bindings : MapFunc W
  map_secret_to_cluster_rbac_group_bindings obj w =
      let (providers, w') = providers_referencing_secret c (get_name obj) w in
      requests_for (λ b. key_of b.meta) (λ name. c.list_cluster_bindings_of name 0) providers w'
