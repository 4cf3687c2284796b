-- ===== src/Controller/ClusterBinding/Tests.antt =====
-- The reconciler of cluster-wide bindings on a small cluster that has one, with its provider.
use directory_rbac_operator.Base.{
  pos, String, ◌≡◌, ◌⊎◌, refl, sym, true, false, Option, some, none, [], if◌then◌else◌,
}
use directory_rbac_operator.Go.Errors.{group_not_found}
use directory_rbac_operator.Go.Action.{Result, ok, err, ok-injective, Action}
use directory_rbac_operator.Go.Sort.{insertion}
use directory_rbac_operator.Kube.Objects.{ObjectKey, ObjectMeta, key_of, ClusterRoleBinding}
use directory_rbac_operator.Kube.Client.{Client, ClusterClientKeeps}
use directory_rbac_operator.Kube.Runtime.{Runtime}
use directory_rbac_operator.Api.{ClusterRbacGroupBinding, LdapProvider}
use directory_rbac_operator.Controller.Common.{GrouperResolver}
use directory_rbac_operator.Controller.Laws.{KeepsView, ResolverKeeps}
use directory_rbac_operator.Controller.Sample.{
  ApiError, not_found, refused, constants, put, same_key, set_condition, same_owners,
}
use directory_rbac_operator.Controller.ClusterBinding.Status.{ClusterRbacGroupBindingReconciler}
use directory_rbac_operator.Controller.ClusterBinding.Reconcile.{reconcile}
use directory_rbac_operator.Controller.ClusterBinding.Frame.{
  HasResolved, reconcile-cluster_role_bindings,
}

pub record Cluster : Type 0 where
  pub cluster_role_bindings : ObjectKey → Option ClusterRoleBinding
  pub binding : ClusterRbacGroupBinding

abbrev pub meta : String → ObjectMeta
meta name = record {
  name = name;
  namespace = "";
  uid = "u1";
  resource_version = "1";
  generation = 3;
  deletion_timestamp = none;
  owner_references = [];
  finalizers = [];
}

abbrev pub provider : LdapProvider
provider = record {
  meta = meta "corp-ad";
  spec = record {
    url = "ldaps://ad.corp.local:636";
    bind_dn = "cn=svc";
    bind_password_secret_ref = record { name = "ldap-bind"; key = "password" };
    tls_config = none;
    insecure_skip_tls = false;
    user_search_base = "ou=people";
    group_search_base = "ou=groups";
    sync_interval = pos 60000000000;
    username_attribute = "uid";
    directory_type = "OpenLDAP";
  };
  status = record { observed_generation = 1; conditions = []; last_verified_time = none };
}

abbrev pub refuse : {A : Type 0} → Action Cluster ApiError A
refuse w = (err refused, w)

abbrev pub store :
    ClusterRoleBinding → Option ClusterRoleBinding → Action Cluster ApiError (Unit {0})
store rb v w =
    (ok tt, record w { cluster_role_bindings = put (key_of rb.meta) v w.cluster_role_bindings })

-- One that is stored under its own key.
abbrev pub found : ObjectKey → Option ClusterRoleBinding → Result ApiError ClusterRoleBinding
found key none = err not_found
found key (some rb) = if same_key (key_of rb.meta) key then ok rb else err not_found

abbrev pub client : Client Cluster ApiError
client = record {
  is_not_found = λ e. elim e [ not_found ↦ true | refused ↦ false ];
  get_binding = λ key. refuse;
  update_binding_status = λ b. refuse;
  get_cluster_binding = λ key w. (ok w.binding, w);
  update_cluster_binding_status = λ b w. (ok tt, record w { binding = b });
  get_role_binding = λ key. refuse;
  create_role_binding = λ rb. refuse;
  update_role_binding = λ rb. refuse;
  delete_role_binding = λ rb. refuse;
  get_cluster_role_binding = λ key w. (found key (w.cluster_role_bindings key), w);
  create_cluster_role_binding = λ rb. store rb (some rb);
  update_cluster_role_binding = λ rb. store rb (some rb);
  delete_cluster_role_binding = λ rb. store rb none;
  get_provider = λ key w. (ok provider, w);
  update_provider = λ p. refuse;
  update_provider_status = λ p. refuse;
  get_secret = λ key. refuse;
  list_bindings_of = λ name limit. refuse;
  list_cluster_bindings_of = λ name limit. refuse;
  list_providers_of = λ name. refuse;
}

abbrev pub runtime : Runtime Cluster ApiError
runtime = record {
  constants = constants;
  subject_sorter = insertion;
  sha256_hex = λ s. s;
  decimal = λ n. "n";
  quote = λ s. s;
  error_text = λ e. "error";
  now = λ w. (7, w);
  set_status_condition = λ cs c w. (set_condition cs c, w);
  own_role_binding = λ b rb. ok rb;
  own_cluster_role_binding = λ b rb. ok rb;
  same_owner_references = same_owners;
  record_event = λ e w. w;
  observe = λ m w. w;
}

abbrev pub client_keeps : ClusterClientKeeps client
client_keeps = record {
  cluster_role_bindings = λ w. w.cluster_role_bindings;
  get_cluster_binding-keeps = λ key. record { keeps = λ w. refl };
  get_provider-keeps = λ key. record { keeps = λ w. refl };
  update_cluster_binding_status-keeps = λ b. record { keeps = λ w. refl };
}

pub runtime_keeps : KeepsView runtime client_keeps.cluster_role_bindings
runtime_keeps = record {
  now-keeps = λ w. refl;
  set_status_condition-keeps = λ cs c w. refl;
  record_event-keeps = λ e w. refl;
  observe-keeps = λ m w. refl;
}

-- A directory that does not have the group.
abbrev pub resolver : GrouperResolver Cluster ApiError
resolver p w = (ok (λ dn w'. (err group_not_found, w')), w)

pub resolver_keeps : ResolverKeeps resolver client_keeps.cluster_role_bindings
resolver_keeps = record {
  resolver-Keeps = λ p. record { keeps = λ w. refl };
  grouper-Keeps = λ p w g dn h. rw (sym (ok-injective h)) (record { keeps = λ w'. refl });
}

abbrev pub cluster : Cluster
cluster = record {
  cluster_role_bindings = λ key. none;
  binding = record {
    meta = meta "auditors";
    spec = record { provider_ref = "corp-ad"; group_dn = "cn=auditors"; cluster_role_ref = "view" };
    status = record {
      observed_generation = 1;
      conditions = [];
      last_sync_time = none;
      member_count = 0;
      members_preview = [];
      members_truncated = false;
      members_hash = "";
      cluster_role_binding_ref = none;
    };
  };
}

abbrev pub reconciler : ClusterRbacGroupBindingReconciler Cluster ApiError
reconciler = record { client = client; runtime = runtime; grouper = resolver }

abbrev pub auditors : ObjectKey
auditors = record { namespace = ""; name = "auditors" }

reconcile-cluster_role_bindings_example :
    ((reconcile reconciler auditors cluster).1.cluster_role_bindings
      ≡ cluster.cluster_role_bindings)
    ⊎ HasResolved reconciler auditors cluster
reconcile-cluster_role_bindings_example =
    reconcile-cluster_role_bindings reconciler client_keeps runtime_keeps resolver_keeps auditors
      cluster
