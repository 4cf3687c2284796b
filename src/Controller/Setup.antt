-- ===== src/Controller/Setup.antt =====
-- internal/controller: SetupWithManager of the three reconcilers, which says when each one is to run.
use directory_rbac_operator.Base.{String, ◌==◌, Bool, true, List, [], ◌∷◌}
use directory_rbac_operator.Go.Errors.{GoError}
use directory_rbac_operator.Go.Action.{Action}
use directory_rbac_operator.Kube.Objects.{ObjectKey}
use directory_rbac_operator.Kube.Client.{Client}
use directory_rbac_operator.Controller.Common.{ReconcileResult}
use directory_rbac_operator.Controller.Watches.{
  WatchedObject, provider_object, secret_object, other_object, MapFunc,
  map_provider_to_rbac_group_bindings, map_provider_to_cluster_rbac_group_bindings,
  map_secret_to_rbac_group_bindings, map_secret_to_cluster_rbac_group_bindings,
}
use directory_rbac_operator.Controller.Binding.Status.{RbacGroupBindingReconciler}
use directory_rbac_operator.Controller.Binding.Reconcile as Binding
use directory_rbac_operator.Controller.ClusterBinding.Status.{ClusterRbacGroupBindingReconciler}
use directory_rbac_operator.Controller.ClusterBinding.Reconcile as ClusterBinding
use directory_rbac_operator.Controller.Provider.{LdapProviderReconciler}
use directory_rbac_operator.Controller.Provider as Provider

-- The types of objects that For, Owns and Watches are given.
pub data ObjectKind : Type 0 where
  rbac_group_bindings cluster_rbac_group_bindings ldap_providers : ObjectKind
  role_bindings cluster_role_bindings secrets : ObjectKind

-- Watches with handler.EnqueueRequestsFromMapFunc; a watch without predicates lets every object pass.
pub record Watch (W : Type 0) : Type 0 where
  pub object : ObjectKind
  pub map_func : MapFunc W
  pub predicate : WatchedObject → Bool

-- What ctrl.NewControllerManagedBy has been told when Complete is called.
pub record ControllerSpec (W E : Type 0) : Type 0 where
  pub for_object : ObjectKind
  pub owns : List ObjectKind
  pub watches : List (Watch W)
  pub reconcile : ObjectKey → Action W (GoError E) ReconcileResult

-- GetNamespace
unfoldable pub get_namespace : WatchedObject → String
get_namespace (provider_object p) = p.meta.namespace
get_namespace (secret_object s) = s.meta.namespace
get_namespace (other_object meta) = meta.namespace

-- The predicate of the watch on secrets.
unfoldable pub in_secret_namespace : String → WatchedObject → Bool
unfolding get_namespace
in_secret_namespace secret_namespace obj = get_namespace obj == secret_namespace

module _ {W : Type 0} where
  unfoldable pub watch_providers : MapFunc W → Watch W
  watch_providers map_func = record {
    object = ldap_providers;
    map_func = map_func;
    predicate = λ obj. true;
  }

  unfoldable pub watch_secrets : String → MapFunc W → Watch W
  unfolding in_secret_namespace
  watch_secrets secret_namespace map_func = record {
    object = secrets;
    map_func = map_func;
    predicate = in_secret_namespace secret_namespace;
  }

module _ {W E : Type 0} where
  -- `c` is the client of the manager, and `secret_namespace` the field SecretNamespace.
  unfoldable pub binding_controller :
      Client W E → String → RbacGroupBindingReconciler W E → ControllerSpec W E
  unfolding watch_providers watch_secrets
  binding_controller c secret_namespace r = record {
    for_object = rbac_group_bindings;
    owns = role_bindings ∷ [];
    watches =
        watch_providers (map_provider_to_rbac_group_bindings c)
        ∷ watch_secrets secret_namespace (map_secret_to_rbac_group_bindings c)
        ∷ [];
    reconcile = Binding.reconcile r;
  }

  unfoldable pub cluster_binding_controller :
      Client W E → String → ClusterRbacGroupBindingReconciler W E → ControllerSpec W E
  unfolding watch_providers watch_secrets
  cluster_binding_controller c secret_namespace r = record {
    for_object = cluster_rbac_group_bindings;
    owns = cluster_role_bindings ∷ [];
    watches =
        watch_providers (map_provider_to_cluster_rbac_group_bindings c)
        ∷ watch_secrets secret_namespace (map_secret_to_cluster_rbac_group_bindings c)
        ∷ [];
    reconcile = ClusterBinding.reconcile r;
  }

  unfoldable pub provider_controller : LdapProviderReconciler W E → ControllerSpec W E
  provider_controller r = record {
    for_object = ldap_providers;
    owns = [];
    watches = [];
    reconcile = Provider.reconcile r;
  }
