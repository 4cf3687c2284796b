-- ===== src/Controller/ClusterBinding/Status.antt =====
-- internal/controller/clusterrbacgroupbinding_controller.go: the reconciler's parts, and the outcomes that it
-- writes to a binding's status.
use directory_rbac_operator.Base.{
  ℕ, String, ◌+++◌, Bool, true, false, some, List, [], ◌∷◌, length, if◌then◌else◌,
}
use directory_rbac_operator.Go.Errors.{GoError, error_text}
use directory_rbac_operator.Go.Action.{Action, pure, fail, reading, perform, ◌>>=◌, ◌>>◌, call}
use directory_rbac_operator.Kube.Objects.{key_of, Timestamp, Duration, Condition}
use directory_rbac_operator.Kube.Client.{Client}
use directory_rbac_operator.Kube.Runtime.{Runtime}
use directory_rbac_operator.Metrics.{sync_total, ldap_errors_total, members_count}
use directory_rbac_operator.Api.{
  ClusterRbacGroupBinding, condition_ready, condition_degraded, condition_group_not_found,
  reason_sync_succeeded, reason_ldap_unreachable, reason_group_not_found,
}
use directory_rbac_operator.Rbacsync.Diff.{preview_members, members_hash, member_count}
use directory_rbac_operator.Controller.Common.{
  GrouperResolver, ReconcileResult, record_warning, set_conditions,
}

abbrev pub cluster_rbac_group_binding_kind : String
cluster_rbac_group_binding_kind = "ClusterRBACGroupBinding"

-- ClusterRBACGroupBindingReconciler; its scheme and recorder are used through `runtime`.
pub record ClusterRbacGroupBindingReconciler (W E : Type 0) : Type 0 where
  pub client : Client W E
  pub runtime : Runtime W E
  pub grouper : GrouperResolver W E

module _ {W E : Type 0} (r : ClusterRbacGroupBindingReconciler W E) where
  open r use {client, runtime, grouper}
  open runtime use {constants}

  abbrev condition : String → Bool → String → String → Condition
  condition type status reason text = record {
    type = type;
    status = if status then constants.condition_true else constants.condition_false;
    reason = reason;
    message = text;
  }

  -- The conditions that markReady sets.
  unfoldable pub ready_conditions : ℕ → List Condition
  ready_conditions n =
      condition condition_ready true reason_sync_succeeded
        ("synced " +++ (runtime.decimal n +++ " member(s)"))
      ∷ condition condition_degraded false reason_sync_succeeded ""
      ∷ condition condition_group_not_found false reason_sync_succeeded ""
      ∷ []

  -- The status that markReady writes.
  unfoldable pub ready_binding :
      ClusterRbacGroupBinding → List String → Timestamp → List Condition → ClusterRbacGroupBinding
  ready_binding binding members now conditions =
      let (preview, truncated) = preview_members members in
      record binding {
        status = record {
          observed_generation = binding.meta.generation;
          conditions = conditions;
          last_sync_time = some now;
          member_count = member_count members;
          members_preview = preview;
          members_truncated = truncated;
          members_hash = members_hash runtime.sha256_hex members;
          cluster_role_binding_ref = some binding.meta.name;
        };
      }

  -- markReady
  unfoldable pub mark_ready :
      ClusterRbacGroupBinding → List String → Duration → Action W (GoError E) ReconcileResult
  unfolding ready_conditions ready_binding
  mark_ready binding members interval = do
    now ← reading runtime.now
    perform (runtime.observe (sync_total cluster_rbac_group_binding_kind "ready"))
    perform (
        runtime.observe
          (members_count cluster_rbac_group_binding_kind "" binding.meta.name (length members)))
    conditions ←
        reading
          (set_conditions runtime binding.status.conditions (ready_conditions (length members)))
    call (client.update_cluster_binding_status (ready_binding binding members now conditions))
    pure (record { requeue_after = interval })

  -- The conditions that markDegraded sets, with the text of the cause.
  unfoldable pub degraded_conditions : String → List Condition
  degraded_conditions text =
      condition condition_ready false reason_ldap_unreachable text
      ∷ condition condition_degraded true reason_ldap_unreachable text
      ∷ condition condition_group_not_found false reason_ldap_unreachable ""
      ∷ []

  -- The status that markDegraded and markGroupNotFound write: the last successful sync stays on record.
  unfoldable pub failed_binding : ClusterRbacGroupBinding → List Condition → ClusterRbacGroupBinding
  failed_binding binding conditions =
      let status = binding.status in
      record binding {
        status = record status {
          observed_generation = binding.meta.generation;
          conditions = conditions;
        };
      }

  -- markDegraded
  unfoldable pub mark_degraded :
      ClusterRbacGroupBinding → GoError E → Action W (GoError E) ReconcileResult
  unfolding degraded_conditions failed_binding
  mark_degraded binding cause = do
    let text = error_text runtime.error_text cause
    perform (
        record_warning runtime cluster_rbac_group_binding_kind (key_of binding.meta) "SyncFailed"
          text)
    perform (runtime.observe (sync_total cluster_rbac_group_binding_kind "degraded"))
    perform (runtime.observe (ldap_errors_total binding.spec.provider_ref))
    conditions ←
        reading (set_conditions runtime binding.status.conditions (degraded_conditions text))
    call (client.update_cluster_binding_status (failed_binding binding conditions))
    fail cause

  -- The conditions that markGroupNotFound sets.
  unfoldable pub group_not_found_conditions : List Condition
  group_not_found_conditions =
      condition condition_ready false reason_group_not_found "groupDN not found in directory"
      ∷ condition condition_group_not_found true reason_group_not_found ""
      ∷ condition condition_degraded false reason_group_not_found ""
      ∷ []

  -- markGroupNotFound
  unfoldable pub mark_group_not_found :
      ClusterRbacGroupBinding → Duration → Action W (GoError E) ReconcileResult
  unfolding group_not_found_conditions failed_binding
  mark_group_not_found binding interval = do
    perform (
        record_warning runtime cluster_rbac_group_binding_kind (key_of binding.meta) "GroupNotFound"
          "groupDN not found in directory")
    perform (runtime.observe (sync_total cluster_rbac_group_binding_kind "group_not_found"))
    conditions ←
        reading (set_conditions runtime binding.status.conditions group_not_found_conditions)
    call (client.update_cluster_binding_status (failed_binding binding conditions))
    pure (record { requeue_after = interval })
