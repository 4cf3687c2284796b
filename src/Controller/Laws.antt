-- ===== src/Controller/Laws.antt =====
-- What the reconcilers rely on of the libraries that they call, as those document it.
use directory_rbac_operator.Base.{String, ◌≡◌, ◌≢◌, ◌↔◌, true, some, List}
use directory_rbac_operator.Go.Action.{ok}
use directory_rbac_operator.Go.Action.Keeps.{Keeps, KeepsEffect}
use directory_rbac_operator.Kube.Objects.{
  key_of, Condition, OwnerReference, RoleBinding, ClusterRoleBinding,
}
use directory_rbac_operator.Kube.Runtime.{Runtime, Event}
use directory_rbac_operator.Metrics.{Metric}
use directory_rbac_operator.Api.{RbacGroupBinding, ClusterRbacGroupBinding, LdapProvider}
use directory_rbac_operator.Controller.Common.{find_condition, Grouper, GrouperResolver}

-- A condition as it is stored: a time of its last change is kept beside these fields.
pub record Shows (c : Condition) (conditions : List Condition) : Type 0 where
  pub stored : Condition
  pub found : find_condition conditions c.type ≡ some stored
  pub same_status : stored.status ≡ c.status
  pub same_reason : stored.reason ≡ c.reason
  pub same_message : stored.message ≡ c.message

-- Reading the clock, recording an event and counting in a metric do not touch the view.
pub record KeepsView {W E V : Type 0} (rt : Runtime W E) (view : W → V) : Type 0 where
  pub now-keeps : (w : W) → view (rt.now w).1 ≡ view w
  pub set_status_condition-keeps :
      (cs : List Condition) (c : Condition) (w : W)
      → view (rt.set_status_condition cs c w).1 ≡ view w
  pub record_event-keeps : (e : Event) → KeepsEffect view (rt.record_event e)
  pub observe-keeps : (m : Metric) → KeepsEffect view (rt.observe m)

pub record RuntimeLaws {W E : Type 0} (rt : Runtime W E) : Type 0 where
  -- meta.SetStatusCondition sets the condition of the given type and no other
  pub set_status_condition-Shows :
      (cs : List Condition) (c : Condition) (w : W) → Shows c (rt.set_status_condition cs c w).0
  pub set_status_condition-others :
      (cs : List Condition) (c : Condition) (w : W) (type : String)
      → type ≢ c.type
      → find_condition (rt.set_status_condition cs c w).0 type ≡ find_condition cs type
  -- controllerutil.SetControllerReference writes the owner references and nothing else
  pub own_role_binding-content :
      (b : RbacGroupBinding) (rb owned : RoleBinding)
      → rt.own_role_binding b rb ≡ ok owned
      → (owned.subjects ≡ rb.subjects)
        × (owned.role_ref ≡ rb.role_ref)
        × (key_of owned.meta ≡ key_of rb.meta)
  -- apiequality.Semantic.DeepEqual on owner references
  pub same_owner_references-iff :
      (a b : List OwnerReference) → (rt.same_owner_references a b ≡ true) ↔ (a ≡ b)

-- Resolving a group does not touch the view: a directory is not a part of the cluster.
pub record ResolverKeeps {W E V : Type 0} (resolver : GrouperResolver W E) (view : W → V)
    : Type 0 where
  pub resolver-Keeps : (p : LdapProvider) → Keeps view (resolver p)
  pub grouper-Keeps :
      (p : LdapProvider) (w : W) (g : Grouper W E) (dn : String)
      → (resolver p w).0 ≡ ok g
      → Keeps view (g dn)

-- SetControllerReference on a ClusterRoleBinding.
pub record OwnsClusterRoleBindings {W E : Type 0} (rt : Runtime W E) : Type 0 where
  pub own_cluster_role_binding-content :
      (b : ClusterRbacGroupBinding) (rb owned : ClusterRoleBinding)
      → rt.own_cluster_role_binding b rb ≡ ok owned
      → (owned.subjects ≡ rb.subjects)
        × (owned.role_ref ≡ rb.role_ref)
        × (key_of owned.meta ≡ key_of rb.meta)
