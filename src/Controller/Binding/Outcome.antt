-- ===== src/Controller/Binding/Outcome.antt =====
-- What the functions named mark... write to the status, and what they return.
use directory_rbac_operator.Base.{String, ◌≡◌, ◌⊎◌, refl, true, false, some, List}
use directory_rbac_operator.Go.Errors.{GoError}
use directory_rbac_operator.Go.Action.{ok, err, pure, fail, reading, perform, ◌>>=◌, ◌>>◌}
use directory_rbac_operator.Kube.Objects.{ObjectKey, key_of, Duration, Condition}
use directory_rbac_operator.Kube.Client.{ClientLaws}
use directory_rbac_operator.Api.{
  RbacGroupBinding, RbacGroupBindingStatus, reason_sync_succeeded, reason_ldap_unreachable,
  reason_group_not_found,
}
use directory_rbac_operator.Rbacsync.Diff.{preview_members, members_hash, member_count}
use directory_rbac_operator.Controller.Laws.{RuntimeLaws}
use directory_rbac_operator.Controller.Conditions.{
  Reports, three_conditions-Reports, three_conditions_swapped-Reports,
}
use directory_rbac_operator.Controller.Stored.{Refused, write_status}
use directory_rbac_operator.Controller.Stored
use directory_rbac_operator.Controller.Binding.Status.{
  RbacGroupBindingReconciler, ready_conditions, ready_binding, degraded_conditions, failed_binding,
  group_not_found_conditions, mark_ready, mark_degraded, mark_group_not_found,
}

-- A status that holds what the last successful sync wrote, for the current generation.
pub record KeepsSync (b : RbacGroupBinding) (s : RbacGroupBindingStatus) : Type 0 where
  pub generation : s.observed_generation ≡ b.meta.generation
  pub sync_time : s.last_sync_time ≡ b.status.last_sync_time
  pub count : s.member_count ≡ b.status.member_count
  pub preview : s.members_preview ≡ b.status.members_preview
  pub truncated : s.members_truncated ≡ b.status.members_truncated
  pub hash : s.members_hash ≡ b.status.members_hash
  pub ref : s.role_binding_ref ≡ b.status.role_binding_ref

module _ {W E : Type 0} (r : RbacGroupBindingReconciler W E) (laws : ClientLaws r.client) where
  open r use {client, runtime}
  open laws use {bindings}

  -- The status that the world holds for the binding at this key.
  abbrev pub HasStatus : ObjectKey → W → (RbacGroupBindingStatus → Type 0) → Type 0
  HasStatus = Stored.HasStatus bindings (λ b. b.status)

  failed_binding-KeepsSync :
      (b : RbacGroupBinding) (cs : List Condition) → KeepsSync b (failed_binding r b cs).status
  unfolding failed_binding
  failed_binding-KeepsSync b cs = record {
    generation = refl;
    sync_time = refl;
    count = refl;
    preview = refl;
    truncated = refl;
    hash = refl;
    ref = refl;
  }

  module _ (rt : RuntimeLaws runtime) where
    -- The status says that the last attempt failed: not Ready, with the one condition that says
    -- why, and with what the last successful sync wrote.
    pub record IsDegraded (b : RbacGroupBinding) (s : RbacGroupBindingStatus) : Type 0 where
      pub kept : KeepsSync b s
      pub reports : Reports runtime.constants false true false reason_ldap_unreachable s.conditions

    pub record IsGroupNotFound (b : RbacGroupBinding) (s : RbacGroupBindingStatus) : Type 0 where
      pub kept : KeepsSync b s
      pub reports : Reports runtime.constants false false true reason_group_not_found s.conditions

    -- markDegraded returns the cause and stores a status that reports it, or returns the error with
    -- which the API server refused the status.
    pub mark_degraded_lem :
        (b : RbacGroupBinding) (cause : GoError E) (w : W)
        → Refused (mark_degraded r b cause w).0
          ⊎ (((mark_degraded r b cause w).0 ≡ err cause)
              × HasStatus (key_of b.meta) (mark_degraded r b cause w).1 (IsDegraded b))
    unfolding mark_degraded ◌>>◌ ◌>>=◌ perform reading fail failed_binding degraded_conditions
    mark_degraded_lem b cause w =
        write_status bindings (λ x. x.status) _ _ _ _ _ (IsDegraded b) _
          (laws.update_binding_status-stored _ _)
          (record {
            kept = failed_binding-KeepsSync b _;
            reports =
                three_conditions-Reports runtime rt b.status.conditions _ false true false
                  reason_ldap_unreachable _ _ _;
          })
          (λ w'. refl)

    -- markGroupNotFound asks for a check after the interval and stores a status that reports the missing group, or
    -- returns the error with which the API server refused the status.
    pub mark_group_not_found_lem :
        (b : RbacGroupBinding) (interval : Duration) (w : W)
        → Refused (mark_group_not_found r b interval w).0
          ⊎ (((mark_group_not_found r b interval w).0 ≡ ok (record { requeue_after = interval }))
              × HasStatus
                  (key_of b.meta)
                  (mark_group_not_found r b interval w).1
                  (IsGroupNotFound b))
    unfolding mark_group_not_found ◌>>◌ ◌>>=◌ perform reading pure failed_binding
        group_not_found_conditions
    mark_group_not_found_lem b interval w =
        write_status bindings (λ x. x.status) _ _ _ _ _ (IsGroupNotFound b) _
          (laws.update_binding_status-stored _ _)
          (record {
            kept = failed_binding-KeepsSync b _;
            reports =
                three_conditions_swapped-Reports runtime rt b.status.conditions _ false false true
                  reason_group_not_found _ _ _;
          })
          (λ w'. refl)

    -- The status describes these members, and says Ready alone.
    pub record IsReady (b : RbacGroupBinding) (members : List String) (s : RbacGroupBindingStatus)
        : Type 0 where
      pub generation : s.observed_generation ≡ b.meta.generation
      pub count : s.member_count ≡ member_count members
      pub preview : s.members_preview ≡ (preview_members members).0
      pub truncated : s.members_truncated ≡ (preview_members members).1
      pub hash : s.members_hash ≡ members_hash runtime.sha256_hex members
      pub ref : s.role_binding_ref ≡ some b.meta.name
      pub reports : Reports runtime.constants true false false reason_sync_succeeded s.conditions

    -- markReady asks for a check after the interval and stores a status that describes the members, or
    -- returns the error with which the API server refused the status.
    pub mark_ready_lem :
        (b : RbacGroupBinding) (members : List String) (interval : Duration) (w : W)
        → Refused (mark_ready r b members interval w).0
          ⊎ (((mark_ready r b members interval w).0 ≡ ok (record { requeue_after = interval }))
              × HasStatus (key_of b.meta) (mark_ready r b members interval w).1 (IsReady b members))
    unfolding mark_ready ◌>>◌ ◌>>=◌ perform reading pure ready_binding ready_conditions
    mark_ready_lem b members interval w =
        write_status bindings (λ x. x.status) _ _ _ _ _ (IsReady b members) _
          (laws.update_binding_status-stored _ _)
          (record {
            generation = refl;
            count = refl;
            preview = refl;
            truncated = refl;
            hash = refl;
            ref = refl;
            reports =
                three_conditions-Reports runtime rt b.status.conditions _ true false false
                  reason_sync_succeeded _ _ _;
          })
          (λ w'. refl)
