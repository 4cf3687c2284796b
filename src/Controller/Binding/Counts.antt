-- ===== src/Controller/Binding/Counts.antt =====
-- internal/controller/rbacgroupbinding_controller.go: the metrics that markReady, markDegraded and markGroupNotFound observe.
pub mod Sync
pub mod Reconcile
use directory_rbac_operator.Base.{
  String, ◌≡◌, refl, sym, ap, ◌∙◌, Bool, true, false, not, ◌&&◌, Bool-cases, inl, inr, ◌⊎◌, List,
  [], ◌∷◌, ◌++◌, length,
}
use directory_rbac_operator.Go.Errors.{GoError, foreign, foreign_test, is_group_not_found}
use directory_rbac_operator.Go.Action.{
  Result, ok, err, Result-cases, Action, try, deferring, ◌>>=◌, ◌>>◌, call, with_error,
  with_error-ok, fail, pure, perform, reading, and_then, of_result, map_err,
}
use directory_rbac_operator.Go.Action.Bind.{>>-fails}
use directory_rbac_operator.Go.Action.Keeps.{
  Keeps, KeepsEffect, keeps_rules, and_then-Keeps, pure-Keeps, fail-Keeps, perform-Keeps, >>-Keeps,
  call-Keeps, of_result-Keeps,
}
use directory_rbac_operator.Kube.Objects.{ObjectKey, Duration, Condition, RoleBinding, key_of}
use directory_rbac_operator.Kube.Runtime.{Event}
use directory_rbac_operator.Metrics.{
  Metric, sync_total, sync_duration, ldap_errors_total, members_count,
}
use directory_rbac_operator.Api.{RbacGroupBinding, LdapProvider}
use directory_rbac_operator.Rbacsync.Diff.{subjects_equal}
use directory_rbac_operator.Controller.Common.{
  Grouper, ReconcileResult, SyncOutcome, sync_unchanged, sync_created, sync_updated, sync_recreated,
  record_success, record_warning, set_conditions, same_role_ref,
}
use directory_rbac_operator.Controller.Laws.{ResolverKeeps}
use directory_rbac_operator.Controller.Quiet.{set_conditions-keeps_by}
use directory_rbac_operator.Controller.Binding.Status.{
  RbacGroupBindingReconciler, rbac_group_binding_kind, mark_ready, mark_degraded,
  mark_group_not_found,
}
use directory_rbac_operator.Controller.Binding.Sync.{
  with_subjects, sync_subjects, recreate, create, sync_found, reconcile_role_binding,
}
use directory_rbac_operator.Controller.Binding.Reconcile.{
  report, on_outcome, apply_members, on_members, on_grouper, on_provider, on_binding, reconcile,
}
use directory_rbac_operator.Controller.Binding.Frame.{provider_key, HasMembers, HasResolved}

-- The metrics as a log, the latest first: observing adds to it, and nothing else that Reconcile calls does.
pub record Counting {W E : Type 0} (r : RbacGroupBindingReconciler W E) (log : W → List Metric)
    : Type 0 where
  pub observe-adds : (m : Metric) (w : W) → log (r.runtime.observe m w) ≡ m ∷ log w
  pub now-keeps : (w : W) → log (r.runtime.now w).1 ≡ log w
  pub set_status_condition-keeps :
      (cs : List Condition) (c : Condition) (w : W)
      → log (r.runtime.set_status_condition cs c w).1 ≡ log w
  pub record_event-keeps : (e : Event) → KeepsEffect log (r.runtime.record_event e)
  pub get_binding-Keeps : (key : ObjectKey) → Keeps log (r.client.get_binding key)
  pub get_provider-Keeps : (key : ObjectKey) → Keeps log (r.client.get_provider key)
  pub get_role_binding-Keeps : (key : ObjectKey) → Keeps log (r.client.get_role_binding key)
  pub create_role_binding-Keeps : (rb : RoleBinding) → Keeps log (r.client.create_role_binding rb)
  pub update_role_binding-Keeps : (rb : RoleBinding) → Keeps log (r.client.update_role_binding rb)
  pub delete_role_binding-Keeps : (rb : RoleBinding) → Keeps log (r.client.delete_role_binding rb)
  pub update_binding_status-Keeps :
      (b : RbacGroupBinding) → Keeps log (r.client.update_binding_status b)
  pub resolver : ResolverKeeps r.grouper log

-- What the directory answered when it was asked for the members of the group.
abbrev pub Answers : Type 0 → Type 1
Answers E = Result (GoError E) (List String) → Type 0

-- The directory did not say that there is no such group.
abbrev pub IsUntold : {E : Type 0} → Answers E → Type 0
IsUntold {E} IsAnswer = (x : GoError E) → IsAnswer (err x) → is_group_not_found x ≡ false

-- What a run on a binding counts, by how it ends. `Stops` says which errors end a run that counts nothing.
pub data Counted {E : Type 0} (b : RbacGroupBinding) (IsAnswer : Answers E)
    (Stops : GoError E → Type 0) (res : Result (GoError E) ReconcileResult) (counted : List Metric)
    : Type 0 where
  stopped :
      (e : GoError E)
      → res ≡ err e
      → IsUntold IsAnswer
      → Stops e
      → counted ≡ []
      → Counted b IsAnswer Stops res counted
  degraded :
      (e : GoError E)
      → res ≡ err e
      → IsUntold IsAnswer
      → counted
        ≡ ldap_errors_total b.spec.provider_ref ∷ sync_total rbac_group_binding_kind "degraded" ∷ []
      → Counted b IsAnswer Stops res counted
  group_not_found :
      (e : GoError E)
      → IsAnswer (err e)
      → is_group_not_found e ≡ true
      → counted ≡ sync_total rbac_group_binding_kind "group_not_found" ∷ []
      → Counted b IsAnswer Stops res counted
  ready :
      (members : List String)
      → IsAnswer (ok members)
      → counted
        ≡ members_count rbac_group_binding_kind b.meta.namespace b.meta.name (length members)
          ∷ sync_total rbac_group_binding_kind "ready"
          ∷ []
      → Counted b IsAnswer Stops res counted

-- What was counted since the log was `before`.
pub record Counts {W E : Type 0} (log : W → List Metric) (b : RbacGroupBinding)
    (IsAnswer : Answers E) (Stops : GoError E → Type 0) (before : List Metric)
    (m : Result (GoError E) ReconcileResult × W) : Type 0 where
  pub counted : List Metric
  pub logged : log m.1 ≡ counted ++ before
  pub fits : Counted b IsAnswer Stops m.0 counted

module _ {W E : Type 0} (r : RbacGroupBindingReconciler W E) (log : W → List Metric)
    (counting : Counting r log) where
  open r use {client, runtime, grouper}
  open counting use {
    observe-adds, now-keeps, set_status_condition-keeps, record_event-keeps,
    update_binding_status-Keeps,
  }

  conditions-keep :
      (cs new : List Condition) (w : W) → log (set_conditions runtime cs new w).1 ≡ log w
  conditions-keep = set_conditions-keeps_by runtime log set_status_condition-keeps

  -- The end of each outcome: the status is written, then the result is made.
  written :
      {A : Type 0} (b : RbacGroupBinding) (end : Action W (GoError E) A) (w : W)
      → Keeps log end
      → log ((call (client.update_binding_status b) >> end) w).1 ≡ log w
  written b end w h = (>>-Keeps _ _ (call-Keeps _ (update_binding_status-Keeps b)) h).keeps w

  pub observed :
      {w : W} {l : List Metric} (m : Metric) → log w ≡ l → log (runtime.observe m w) ≡ m ∷ l
  observed {w} m h = observe-adds m w ∙ ap (λ l. m ∷ l) h

  pub mark_degraded-Counts :
      (b : RbacGroupBinding) (IsAnswer : Answers E) (Stops : GoError E → Type 0) (cause : GoError E)
      (w : W)
      → IsUntold IsAnswer
      → Counts log b IsAnswer Stops (log w) (mark_degraded r b cause w)
  unfolding mark_degraded ◌>>◌ ◌>>=◌ perform reading and_then record_warning
  mark_degraded-Counts b IsAnswer Stops cause w untold = record {
    counted = _;
    logged =
        written _ _ _ (fail-Keeps cause)
        ∙ conditions-keep _ _ _
        ∙ observed _ (observed _ (record_event-keeps _ w));
    fits =
        let (e, q) = >>-fails (call (client.update_binding_status _)) cause _ in
        degraded e q untold refl;
  }

  pub mark_group_not_found-Counts :
      (b : RbacGroupBinding) (IsAnswer : Answers E) (Stops : GoError E → Type 0) (e : GoError E)
      (interval : Duration) (w : W)
      → IsAnswer (err e)
      → is_group_not_found e ≡ true
      → Counts log b IsAnswer Stops (log w) (mark_group_not_found r b interval w)
  unfolding mark_group_not_found ◌>>◌ ◌>>=◌ perform reading and_then record_warning
  mark_group_not_found-Counts b IsAnswer Stops e interval w answer absent = record {
    counted = _;
    logged =
        written _ _ _ (pure-Keeps _) ∙ conditions-keep _ _ _ ∙ observed _ (record_event-keeps _ w);
    fits = group_not_found e answer absent refl;
  }

  pub mark_ready-Counts :
      (b : RbacGroupBinding) (IsAnswer : Answers E) (Stops : GoError E → Type 0)
      (members : List String) (interval : Duration) (w : W)
      → IsAnswer (ok members)
      → Counts log b IsAnswer Stops (log w) (mark_ready r b members interval w)
  unfolding mark_ready ◌>>◌ ◌>>=◌ perform reading and_then
  mark_ready-Counts b IsAnswer Stops members interval w answer = record {
    counted = _;
    logged =
        written _ _ _ (pure-Keeps _)
        ∙ conditions-keep _ _ _
        ∙ observed _ (observed _ (now-keeps w));
    fits = ready members answer refl;
  }

  -- A failure that nothing was counted for.
  pub stopped-Counts :
      (b : RbacGroupBinding) (IsAnswer : Answers E) (Stops : GoError E → Type 0) (e : GoError E)
      (w : W)
      → IsUntold IsAnswer
      → Stops e
      → Counts log b IsAnswer Stops (log w) (err e, w)
  stopped-Counts b IsAnswer Stops e w untold stops = record {
    counted = [];
    logged = refl;
    fits = stopped e refl untold stops refl;
  }

  -- What came before counted nothing.
  pub Counts-since :
      {b : RbacGroupBinding} {IsAnswer : Answers E} {Stops : GoError E → Type 0}
      {l l' : List Metric} {m : Result (GoError E) ReconcileResult × W}
      → l' ≡ l
      → Counts log b IsAnswer Stops l' m
      → Counts log b IsAnswer Stops l m
  Counts-since h c = record {
    counted = c.counted;
    logged = c.logged ∙ ap (λ l. c.counted ++ l) h;
    fits = c.fits;
  }

  -- After a step that succeeds and counts nothing.
  pub passing-Counts :
      {A : Type 0} {b : RbacGroupBinding} {IsAnswer : Answers E} {Stops : GoError E → Type 0}
      {a : A} (m : Action W (GoError E) A) (k : Action W (GoError E) ReconcileResult) (w : W)
      → Keeps log m
      → (m w).0 ≡ ok a
      → ((v : W) → Counts log b IsAnswer Stops (log v) (k v))
      → Counts log b IsAnswer Stops (log w) ((m >> k) w)
  unfolding ◌>>◌ ◌>>=◌ and_then
  passing-Counts m k w keeps done counts = rw done (Counts-since (keeps.keeps w) (counts (m w).1))
