-- ===== src/Controller/Binding/Serving.antt =====
-- reconcileRoleBinding has to succeed against an API server that serves.
use directory_rbac_operator.Base.{
  ◌≡◌, ◌⊎◌, ◌&&◌, inl, inr, refl, ap, ◌∙◌, subst, true, Bool-cases, none, some, List,
}
use directory_rbac_operator.Go.Errors.{foreign_test}
use directory_rbac_operator.Go.Action.{ok, err, try, pure, ◌>>=◌, ◌>>◌, call, with_error}
use directory_rbac_operator.Go.Action.Succeeds.{
  Success, Succeeds, Preserves, pure-Succeeds, call-Success, >>-Success,
}
use directory_rbac_operator.Kube.Objects.{ObjectKey, key_of, Condition, RoleBinding}
use directory_rbac_operator.Kube.Client.{Client, ClientLaws}
use directory_rbac_operator.Kube.Runtime.{Runtime, Event}
use directory_rbac_operator.Metrics.{Metric}
use directory_rbac_operator.Api.{RbacGroupBinding}
use directory_rbac_operator.Rbacsync.Diff.{subjects_equal}
use directory_rbac_operator.Controller.Common.{
  SyncOutcome, sync_unchanged, sync_created, sync_updated, sync_recreated, same_role_ref,
}
use directory_rbac_operator.Controller.Binding.Status.{RbacGroupBindingReconciler}
use directory_rbac_operator.Controller.Binding.Sync.{
  with_subjects, sync_subjects, recreate, create, sync_found, reconcile_role_binding,
}

-- An API server that serves, in the worlds of the kind `up`, with nobody else writing: reads answer with what is
-- stored, a Create succeeds where there is nothing, a Delete where there is something, an Update that keeps the role, which is
-- immutable, and the status of
-- the binding with the given key can be written. The clock, events and metrics do not take the server down.
pub record IsServing {W E : Type 0} (c : Client W E) (laws : ClientLaws c) (rt : Runtime W E)
    (key : ObjectKey) (up : W → Type 0) : Type 0 where
  pub get_role_binding-up : (k : ObjectKey) (w : W) → up w → up (c.get_role_binding k w).1
  pub get_role_binding-answers :
      (k : ObjectKey) (w : W)
      → up w
      → ((rb : RoleBinding) × ((c.get_role_binding k w).0 ≡ ok rb)
          × (laws.role_bindings w k ≡ some rb))
        ⊎ ((e : E) × ((c.get_role_binding k w).0 ≡ err e)
            × (c.is_not_found e ≡ true)
            × (laws.role_bindings w k ≡ none))
  pub create_role_binding-serves :
      (rb : RoleBinding) (w : W)
      → up w
      → laws.role_bindings w (key_of rb.meta) ≡ none
      → Success up (c.create_role_binding rb w)
  pub update_role_binding-serves :
      (rb old : RoleBinding) (w : W)
      → up w
      → laws.role_bindings w (key_of rb.meta) ≡ some old
      → rb.role_ref ≡ old.role_ref
      → Success up (c.update_role_binding rb w)
  pub delete_role_binding-serves :
      (rb : RoleBinding) (w : W)
      → up w
      → laws.role_bindings w (key_of rb.meta) ≡ some rb
      → Success up (c.delete_role_binding rb w)
  pub update_binding_status-serves :
      (b : RbacGroupBinding) (w : W)
      → key_of b.meta ≡ key
      → up w
      → Success up (c.update_binding_status b w)
  pub now-up : (w : W) → up w → up (rt.now w).1
  pub set_status_condition-up :
      (cs : List Condition) (x : Condition) (w : W) → up w → up (rt.set_status_condition cs x w).1
  pub record_event-up : (e : Event) → Preserves up (rt.record_event e)
  pub observe-up : (m : Metric) → Preserves up (rt.observe m)

module _ {W E : Type 0} (r : RbacGroupBindingReconciler W E) (laws : ClientLaws r.client)
    (key : ObjectKey) (up : W → Type 0) (serving : IsServing r.client laws r.runtime key up) where
  open r use {client, runtime}
  open laws use {role_bindings}

  sync_subjects-Success :
      (desired existing : RoleBinding) (w : W)
      → up w
      → role_bindings w (key_of existing.meta) ≡ some existing
      → Success up (sync_subjects r desired existing w)
  unfolding sync_subjects with_subjects
  sync_subjects-Success desired existing w h at =
      let same =
        subjects_equal runtime.subject_sorter existing.subjects desired.subjects
        && runtime.same_owner_references existing.meta.owner_references
            desired.meta.owner_references in
      elim (Bool-cases same) [
        | inl q ↦ rw q (pure-Succeeds sync_unchanged w h)
        | inr q ↦
            let done = call-Success _ w (
              serving.update_role_binding-serves (with_subjects existing desired) existing w h at
                refl) in
            rw q (
              >>-Success (call (client.update_role_binding (with_subjects existing desired)))
                (pure sync_updated) w done (pure-Succeeds sync_updated _ done.stays_up))
      ]

  created-Success :
      (desired : RoleBinding) (o : SyncOutcome) (w : W)
      → up w
      → role_bindings w (key_of desired.meta) ≡ none
      → Success up ((call (client.create_role_binding desired) >> pure o) w)
  created-Success desired o w h at =
      let done = call-Success _ w (serving.create_role_binding-serves desired w h at) in
      >>-Success _ (pure o) w done (pure-Succeeds o _ done.stays_up)

  recreate-Success :
      (desired existing : RoleBinding) (w : W)
      → up w
      → role_bindings w (key_of existing.meta) ≡ some existing
      → key_of existing.meta ≡ key_of desired.meta
      → Success up (recreate r desired existing w)
  unfolding recreate call
  recreate-Success desired existing w h at same_key =
      let deleted = serving.delete_role_binding-serves existing w h at in
      let gone = laws.delete_role_binding-gone existing w deleted.is_ok in
      >>-Success _ _ w (call-Success (client.delete_role_binding existing) w deleted) (
        created-Success desired sync_recreated _ deleted.stays_up (
          subst (λ k. role_bindings (client.delete_role_binding existing w).1 k ≡ none) same_key
            gone))

  -- Against a server that serves, reconcileRoleBinding succeeds.
  pub reconcile_role_binding-Success :
      (desired : RoleBinding) → Succeeds up (reconcile_role_binding r desired)
  unfolding reconcile_role_binding ◌>>=◌ try call with_error sync_found create foreign_test
  reconcile_role_binding-Success desired w h =
      let k = key_of desired.meta in
      let w' = (client.get_role_binding k w).1 in
      let h' = serving.get_role_binding-up k w h in
      let same = (laws.get_role_binding-keeps k).keeps w in
      elim (serving.get_role_binding-answers k w h) [
        | inl (rb, q, at) ↦
            let is_k = laws.get_role_binding-key k w rb q in
            let here = ap (λ v. v (key_of rb.meta)) same ∙ ap (role_bindings w) is_k ∙ at in
            rw q (elim (Bool-cases (same_role_ref rb.role_ref desired.role_ref)) [
              | inl p ↦ rw p (sync_subjects-Success desired rb w' h' here)
              | inr p ↦ rw p (recreate-Success desired rb w' h' here is_k)
            ])
        | inr (e, q, missing, at) ↦
            rw (q, missing) (created-Success desired sync_created w' h' (ap (λ v. v k) same ∙ at))
      ]
