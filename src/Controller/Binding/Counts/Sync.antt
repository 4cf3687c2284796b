-- ===== src/Controller/Binding/Counts/Sync.antt =====
-- internal/controller/rbacgroupbinding_controller.go: reconcileRoleBinding and the events, as to the metrics.
use directory_rbac_operator.Base.{◌≡◌, refl, String, not, ◌&&◌, Bool-cases, inl, inr, List}
use directory_rbac_operator.Go.Errors.{GoError, foreign_test}
use directory_rbac_operator.Go.Action.{Result, ok, err, pure, perform}
use directory_rbac_operator.Go.Action.Keeps.{
  Keeps, keeps_rules, pure-Keeps, fail-Keeps, perform-Keeps,
}
use directory_rbac_operator.Kube.Objects.{RoleBinding}
use directory_rbac_operator.Metrics.{Metric}
use directory_rbac_operator.Api.{RbacGroupBinding}
use directory_rbac_operator.Rbacsync.Diff.{subjects_equal}
use directory_rbac_operator.Controller.Common.{
  SyncOutcome, sync_unchanged, sync_created, sync_updated, sync_recreated, record_success,
  same_role_ref,
}
use directory_rbac_operator.Controller.Binding.Status.{RbacGroupBindingReconciler}
use directory_rbac_operator.Controller.Binding.Sync.{
  sync_subjects, recreate, create, sync_found, reconcile_role_binding,
}
use directory_rbac_operator.Controller.Binding.Reconcile.{report}
use directory_rbac_operator.Controller.Binding.Counts.{Counting}

module _ {W E : Type 0} (r : RbacGroupBindingReconciler W E) (log : W → List Metric)
    (counting : Counting r log) where
  open r use {client, runtime}
  open counting use {
    record_event-keeps, get_role_binding-Keeps, create_role_binding-Keeps,
    update_role_binding-Keeps, delete_role_binding-Keeps,
  }

  pub report-Keeps :
      (b : RbacGroupBinding) (name : String) (members : List String) (o : SyncOutcome)
      → Keeps log (report r b name members o)
  unfolding report record_success
  report-Keeps b name members sync_unchanged = pure-Keeps tt
  report-Keeps b name members sync_created = perform-Keeps _ (record_event-keeps _)
  report-Keeps b name members sync_updated = perform-Keeps _ (record_event-keeps _)
  report-Keeps b name members sync_recreated = perform-Keeps _ (record_event-keeps _)

  -- Reporting an outcome cannot fail.
  pub report-succeeds :
      (b : RbacGroupBinding) (name : String) (members : List String) (o : SyncOutcome) (w : W)
      → (report r b name members o w).0 ≡ ok tt
  unfolding report record_success pure perform
  report-succeeds b name members sync_unchanged w = refl
  report-succeeds b name members sync_created w = refl
  report-succeeds b name members sync_updated w = refl
  report-succeeds b name members sync_recreated w = refl

  sync_subjects-Keeps :
      (desired existing : RoleBinding) → Keeps log (sync_subjects r desired existing)
  unfolding sync_subjects
  sync_subjects-Keeps desired existing =
      elim (Bool-cases (
        subjects_equal runtime.subject_sorter existing.subjects desired.subjects
        && runtime.same_owner_references existing.meta.owner_references
            desired.meta.owner_references)) [
              | inl h ↦ rw h (pure-Keeps _)
              | inr h ↦ rw h (search (keeps_rules, update_role_binding-Keeps) depth 9)
            ]

  recreate-Keeps : (desired existing : RoleBinding) → Keeps log (recreate r desired existing)
  unfolding recreate
  recreate-Keeps desired existing =
      search (keeps_rules, delete_role_binding-Keeps, create_role_binding-Keeps) depth 9

  create-Keeps : (desired : RoleBinding) → Keeps log (create r desired)
  unfolding create
  create-Keeps desired = search (keeps_rules, create_role_binding-Keeps) depth 9

  sync_found-Keeps :
      (desired : RoleBinding) (found : Result (GoError E) RoleBinding)
      → Keeps log (sync_found r desired found)
  unfolding sync_found
  sync_found-Keeps desired (err e) = elim (Bool-cases (foreign_test client.is_not_found e)) [
    | inl h ↦ rw h (create-Keeps desired)
    | inr h ↦ rw h (fail-Keeps e)
  ]
  sync_found-Keeps desired (ok existing) =
      elim (Bool-cases (not (same_role_ref existing.role_ref desired.role_ref))) [
        | inl h ↦ rw h (recreate-Keeps desired existing)
        | inr h ↦ rw h (sync_subjects-Keeps desired existing)
      ]

  pub reconcile_role_binding-Keeps :
      (desired : RoleBinding) → Keeps log (reconcile_role_binding r desired)
  unfolding reconcile_role_binding
  reconcile_role_binding-Keeps desired =
      search (keeps_rules, get_role_binding-Keeps, sync_found-Keeps) depth 9
