-- ===== src/Webhook/Setup.antt =====
-- internal/webhook: the validators as they are given to the webhook server, by SetupWebhookWithManager.
use directory_rbac_operator.Base.{String, List}
use directory_rbac_operator.Go.Errors.{GoError}
use directory_rbac_operator.Go.Action.{Action}
use directory_rbac_operator.Api.{RbacGroupBinding, ClusterRbacGroupBinding}
use directory_rbac_operator.Webhook.{
  validate_create, validate_update, validate_delete, validate_cluster_create,
  validate_cluster_update, validate_cluster_delete,
}

-- admission.Validator; no warnings are ever given.
pub record Validator (W E B : Type 0) : Type 0 where
  pub on_create : B → Action W (GoError E) (Unit {0})
  pub on_update : (old new : B) → Action W (GoError E) (Unit {0})
  pub on_delete : B → Action W (GoError E) (Unit {0})

module _ {W E : Type 0} (quote : String → String) where
  unfoldable pub rbac_group_binding_validator :
      (String → Action W E (List RbacGroupBinding)) → Validator W E RbacGroupBinding
  rbac_group_binding_validator list = record {
    on_create = validate_create quote list;
    on_update = validate_update quote list;
    on_delete = validate_delete quote list;
  }

  unfoldable pub cluster_rbac_group_binding_validator :
      Action W E (List ClusterRbacGroupBinding) → Validator W E ClusterRbacGroupBinding
  cluster_rbac_group_binding_validator list = record {
    on_create = validate_cluster_create quote list;
    on_update = validate_cluster_update quote list;
    on_delete = validate_cluster_delete quote list;
  }
