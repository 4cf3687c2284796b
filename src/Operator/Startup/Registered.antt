-- ===== src/Operator/Startup/Registered.antt =====
-- main.go: the manager is started once everything is registered with it, and not before.
use directory_rbac_operator.Base.{String, ◌≡◌, Bool, true, false, List, [], ◌∷◌, ◌++◌}
use directory_rbac_operator.Go.Errors.{GoError}
use directory_rbac_operator.Go.Action.{Action}
use directory_rbac_operator.Go.Action.Keeps.{Keeps}
use directory_rbac_operator.Go.Action.Appends.{Appends}
use directory_rbac_operator.Api.{RbacGroupBinding, ClusterRbacGroupBinding, LdapProvider}
use directory_rbac_operator.Ldapclient.Library.{Library}
use directory_rbac_operator.Ldapclient.Limiters.{Limiters}
use directory_rbac_operator.Webhook.Setup.{Validator}
use directory_rbac_operator.Controller.Watches.{provider_ref_index_field, secret_ref_index_field}
use directory_rbac_operator.Controller.Setup.{
  ControllerSpec, ObjectKind, rbac_group_bindings, cluster_rbac_group_bindings, ldap_providers,
}
use directory_rbac_operator.Operator.Startup.{Services}

-- What can be registered with a manager.
pub data Registration : Type 0 where
  index : ObjectKind → String → Registration
  controller webhook : ObjectKind → Registration
  health_check ready_check : String → Registration

-- The registrations of a manager, in order, and whatever starting it changes: a registration that is accepted is
-- added to the first, and none changes the second.
pub record Registers {W E R L V : Type 0} (srv : Services W E R L)
    (registered : W → List Registration) (served : W → V) : Type 0 where
  pub index_bindings-Appends :
      (field : String) (f : RbacGroupBinding → List String)
      → Appends registered
          (index rbac_group_bindings field ∷ [])
          (srv.indexer.index_bindings field f)
  pub index_cluster_bindings-Appends :
      (field : String) (f : ClusterRbacGroupBinding → List String)
      → Appends registered
          (index cluster_rbac_group_bindings field ∷ [])
          (srv.indexer.index_cluster_bindings field f)
  pub index_providers-Appends :
      (field : String) (f : LdapProvider → List String)
      → Appends registered (index ldap_providers field ∷ []) (srv.indexer.index_providers field f)
  pub complete-Appends :
      (spec : ControllerSpec W E)
      → Appends registered (controller spec.for_object ∷ []) (srv.complete spec)
  pub complete_webhook-Appends :
      (v : Validator W E RbacGroupBinding)
      → Appends registered (webhook rbac_group_bindings ∷ []) (srv.complete_webhook v)
  pub complete_cluster_webhook-Appends :
      (v : Validator W E ClusterRbacGroupBinding)
      → Appends registered
          (webhook cluster_rbac_group_bindings ∷ [])
          (srv.complete_cluster_webhook v)
  pub add_healthz_check-Appends :
      (name : String) (check : Action W (GoError E) (Unit {0}))
      → Appends registered (health_check name ∷ []) (srv.add_healthz_check name check)
  pub add_readyz_check-Appends :
      (name : String) (check : Action W (GoError E) (Unit {0}))
      → Appends registered (ready_check name ∷ []) (srv.add_readyz_check name check)
  pub set_limiters-registered :
      (l : Limiters R L) (w : W) → registered (srv.set_limiters l w) ≡ registered w
  pub index_bindings-Keeps :
      (field : String) (f : RbacGroupBinding → List String)
      → Keeps served (srv.indexer.index_bindings field f)
  pub index_cluster_bindings-Keeps :
      (field : String) (f : ClusterRbacGroupBinding → List String)
      → Keeps served (srv.indexer.index_cluster_bindings field f)
  pub index_providers-Keeps :
      (field : String) (f : LdapProvider → List String)
      → Keeps served (srv.indexer.index_providers field f)
  pub complete-Keeps : (spec : ControllerSpec W E) → Keeps served (srv.complete spec)
  pub complete_webhook-Keeps :
      (v : Validator W E RbacGroupBinding) → Keeps served (srv.complete_webhook v)
  pub complete_cluster_webhook-Keeps :
      (v : Validator W E ClusterRbacGroupBinding) → Keeps served (srv.complete_cluster_webhook v)
  pub add_healthz_check-Keeps :
      (name : String) (check : Action W (GoError E) (Unit {0}))
      → Keeps served (srv.add_healthz_check name check)
  pub add_readyz_check-Keeps :
      (name : String) (check : Action W (GoError E) (Unit {0}))
      → Keeps served (srv.add_readyz_check name check)
  pub set_limiters-served : (l : Limiters R L) (w : W) → served (srv.set_limiters l w) ≡ served w

abbrev pub needed_indexes : List Registration
needed_indexes =
    index rbac_group_bindings provider_ref_index_field
    ∷ index cluster_rbac_group_bindings provider_ref_index_field
    ∷ index ldap_providers secret_ref_index_field
    ∷ []

abbrev pub wanted_webhooks : Bool → List Registration
wanted_webhooks true = webhook rbac_group_bindings ∷ webhook cluster_rbac_group_bindings ∷ []
wanted_webhooks false = []

-- What the operator needs before it serves: the indexes that its listings use, its controllers, its webhooks if they
-- are wanted, and its checks.
abbrev pub needed : Bool → List Registration
needed webhooks =
    needed_indexes
    ++ (controller rbac_group_bindings
        ∷ controller cluster_rbac_group_bindings
        ∷ controller ldap_providers
        ∷ (wanted_webhooks webhooks ++ (health_check "healthz" ∷ ready_check "readyz" ∷ [])))
