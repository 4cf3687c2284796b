-- ===== src/Kube/Runtime.antt =====
-- What the reconcilers take from other libraries: the helpers for conditions and owner references, the
-- clock, the event recorder and the metrics, as parameters.
use directory_rbac_operator.Base.{ℕ, String, Bool, List}
use directory_rbac_operator.Go.Action.{Effect, Result}
use directory_rbac_operator.Go.Sort.{Sorter}
use directory_rbac_operator.Kube.Objects.{
  Constants, Timestamp, ObjectKey, OwnerReference, Condition, Subject, RoleBinding,
  ClusterRoleBinding,
}
use directory_rbac_operator.Metrics.{Metric}
use directory_rbac_operator.Api.{RbacGroupBinding, ClusterRbacGroupBinding}

-- corev1.EventTypeNormal, corev1.EventTypeWarning
pub data EventType : Type 0 where
  normal warning : EventType

-- What recorder.Eventf is given; `kind` and `key` say which object it is about.
pub record Event : Type 0 where
  pub kind : String
  pub key : ObjectKey
  pub type : EventType
  pub reason : String
  pub action : String
  pub note : String

pub record Runtime (W E : Type 0) : Type 0 where
  pub constants : Constants
  pub subject_sorter : Sorter Subject
  -- sha256.Sum256 and hex.EncodeToString
  pub sha256_hex : String → String
  -- the verbs %d and %q of package fmt
  pub decimal : ℕ → String
  pub quote : String → String
  -- (error).Error of library errors
  pub error_text : E → String
  -- metav1.Now
  pub now : W → Timestamp × W
  -- meta.SetStatusCondition, which reads the clock
  pub set_status_condition : List Condition → Condition → W → List Condition × W
  -- controllerutil.SetControllerReference
  pub own_role_binding : RbacGroupBinding → RoleBinding → Result E RoleBinding
  pub own_cluster_role_binding :
      ClusterRbacGroupBinding → ClusterRoleBinding → Result E ClusterRoleBinding
  -- apiequality.Semantic.DeepEqual on owner references
  pub same_owner_references : List OwnerReference → List OwnerReference → Bool
  pub record_event : Event → Effect W
  pub observe : Metric → Effect W
