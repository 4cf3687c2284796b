-- ===== src/Controller/Binding/Steps.antt =====
-- reconcileRoleBinding keeps to the access that a binding promises, whatever its calls answer.
use directory_rbac_operator.Base.{
  ◌≡◌, ◌≢◌, ◌&&◌, inl, inr, refl, ap, ◌∙◌, subst, Bool-cases, arith, none, some,
}
use directory_rbac_operator.Go.Errors.{GoError, foreign_test, foreign}
use directory_rbac_operator.Go.Action.{
  Result, ok, err, Result-cases, Action, try, pure, fail, and_then, ◌>>=◌, ◌>>◌, call, with_error,
  with_error-ok,
}
use directory_rbac_operator.Kube.Objects.{ObjectKey, key_of, RoleBinding}
use directory_rbac_operator.Kube.Client.{ClientLaws, AtomicWrites}
use directory_rbac_operator.Rbacsync.Diff.{subjects_equal}
use directory_rbac_operator.Controller.Common.{
  SyncOutcome, sync_updated, sync_created, sync_recreated, same_role_ref,
}
use directory_rbac_operator.Controller.Binding.Status.{RbacGroupBindingReconciler}
use directory_rbac_operator.Controller.Binding.Sync.{
  with_subjects, sync_subjects, recreate, create, sync_found, reconcile_role_binding,
}
use directory_rbac_operator.Controller.Binding.InSync.{same_role_ref_iff}
use directory_rbac_operator.Controller.Binding.Access.{
  grant_of, grant_at, access, AccessStep, same-AccessStep, Wrote-granted, Wrote-AccessStep,
}

-- What follows a call with a value changes nothing more.
then_pure-world :
    {W X A B : Type 0} (m : Action W X A) (b : B) (w : W) → ((m >> pure b) w).1 ≡ (m w).1
unfolding ◌>>◌ ◌>>=◌ and_then pure
then_pure-world m b w = elim (Result-cases (m w).0) [
  | inl (a, q) ↦ rw q refl
  | inr (e, q) ↦ rw q refl
]

module _ {W E : Type 0} (r : RbacGroupBindingReconciler W E) (laws : ClientLaws r.client)
    (atomic : AtomicWrites r.client laws.role_bindings) where
  open r use {client, runtime}
  open laws use {role_bindings}
  open atomic use {
    create_role_binding-atomic, update_role_binding-atomic, delete_role_binding-atomic,
  }

  -- The step from one world to the next on the wanted RoleBinding.
  abbrev pub SyncStep : RoleBinding → W → W → Type 0
  SyncStep desired w w' =
      AccessStep (key_of desired.meta) (grant_of desired) (access (role_bindings w))
        (access (role_bindings w'))

  created-SyncStep :
      (desired : RoleBinding) (o : SyncOutcome) (w : W)
      → SyncStep desired w ((call (client.create_role_binding desired) >> pure o) w).1
  unfolding call
  created-SyncStep desired o w =
      rw (then_pure-world (call (client.create_role_binding desired)) o w)
        (elim (create_role_binding-atomic desired w) [
          | inl wrote ↦ Wrote-AccessStep desired wrote refl refl
          | inr same ↦ same-AccessStep same
        ])

  sync_subjects-SyncStep :
      (desired existing : RoleBinding) (w : W)
      → key_of existing.meta ≡ key_of desired.meta
      → existing.role_ref ≡ desired.role_ref
      → SyncStep desired w (sync_subjects r desired existing w).1
  unfolding sync_subjects with_subjects call pure
  sync_subjects-SyncStep desired existing w key role =
      let same =
        subjects_equal runtime.subject_sorter existing.subjects desired.subjects
        && runtime.same_owner_references existing.meta.owner_references
            desired.meta.owner_references in
      let sent = with_subjects existing desired in
      elim (Bool-cases same) [
        | inl q ↦ rw q (same-AccessStep refl)
        | inr q ↦
            rw (q, then_pure-world (call (client.update_role_binding sent)) sync_updated w)
              (elim (update_role_binding-atomic sent w) [
                | inl wrote ↦ Wrote-AccessStep sent wrote key (rw role refl)
                | inr same ↦ same-AccessStep same
              ])
      ]

  deleted-elsewhere :
      (existing : RoleBinding) (key : ObjectKey) (w : W)
      → key_of existing.meta ≡ key
      → (k : ObjectKey) → k ≢ key
      → access (role_bindings (client.delete_role_binding existing w).1) k
        ≡ access (role_bindings w) k
  deleted-elsewhere existing key w is_key k other =
      ap grant_at (laws.delete_role_binding-elsewhere existing w k (λ e. other (e ∙ is_key)))

  gone-SyncStep :
      (desired existing : RoleBinding) (w w' : W)
      → role_bindings w (key_of desired.meta) ≡ some existing
      → existing.role_ref ≢ desired.role_ref
      → role_bindings w' (key_of desired.meta) ≡ none
      → ((k : ObjectKey)
          → k ≢ key_of desired.meta
          → access (role_bindings w') k ≡ access (role_bindings w) k)
      → SyncStep desired w w'
  gone-SyncStep desired existing w w' at other gone elsewhere =
      AccessStep.revoked (grant_of existing) (ap grant_at at) other (ap grant_at gone) elsewhere

  recreate-SyncStep :
      (desired existing : RoleBinding) (w : W)
      → role_bindings w (key_of desired.meta) ≡ some existing
      → key_of existing.meta ≡ key_of desired.meta
      → existing.role_ref ≢ desired.role_ref
      → SyncStep desired w (recreate r desired existing w).1
  unfolding recreate ◌>>◌ ◌>>=◌ and_then call with_error pure
  recreate-SyncStep desired existing w at key other =
      let key' = key_of desired.meta in
      let w' = (client.delete_role_binding existing w).1 in
      let elsewhere = deleted-elsewhere existing key' w key in
      elim (Result-cases (client.delete_role_binding existing w).0) [
        | inl (_, q) ↦
            let gone =
              subst (λ k. role_bindings w' k ≡ none) key
                (laws.delete_role_binding-gone existing w q) in
            rw q (
              rw (then_pure-world (call (client.create_role_binding desired)) sync_recreated w')
                (elim (create_role_binding-atomic desired w') [
                  | inl wrote ↦
                      AccessStep.granted (Wrote-granted desired wrote)
                        (λ k ne. ap grant_at (wrote.elsewhere k ne) ∙ elsewhere k ne)
                  | inr same ↦
                      gone-SyncStep desired existing w _ at other (ap (λ v. v key') same ∙ gone)
                        (λ k ne. ap (λ v. access v k) same ∙ elsewhere k ne)
                ]))
        | inr (e, q) ↦ rw q (elim (delete_role_binding-atomic existing w) [
          | inl gone ↦
              gone-SyncStep desired existing w w' at other
                (subst (λ k. role_bindings w' k ≡ none) key gone) elsewhere
          | inr same ↦ same-AccessStep same
        ])
      ]

  sync_found-SyncStep :
      (desired : RoleBinding) (found : Result (GoError E) RoleBinding) (w : W)
      → ((existing : RoleBinding)
          → found ≡ ok existing
          → (role_bindings w (key_of desired.meta) ≡ some existing)
            × (key_of existing.meta ≡ key_of desired.meta))
      → SyncStep desired w (sync_found r desired found w).1
  unfolding sync_found fail create
  sync_found-SyncStep desired (err e) w at =
      elim (Bool-cases (foreign_test client.is_not_found e)) [
        | inl q ↦ rw q (created-SyncStep desired sync_created w)
        | inr q ↦ rw q (same-AccessStep refl)
      ]
  sync_found-SyncStep desired (ok existing) w at =
      let (stored, key) = at existing refl in
      let same = same_role_ref_iff existing.role_ref desired.role_ref in
      elim (Bool-cases (same_role_ref existing.role_ref desired.role_ref)) [
        | inl q ↦ rw q (sync_subjects-SyncStep desired existing w key (same.0 q))
        | inr q ↦
            rw q
              (recreate-SyncStep desired existing w stored key (λ e. ground (arith, q, same.1 e)))
      ]

  -- Whatever the calls answer, reconcileRoleBinding makes one step.
  pub reconcile_role_binding-SyncStep :
      (desired : RoleBinding) (w : W)
      → ((key : ObjectKey) (w : W) (rb : RoleBinding)
          → (client.get_role_binding key w).0 ≡ ok rb
          → role_bindings w key ≡ some rb)
      → SyncStep desired w (reconcile_role_binding r desired w).1
  unfolding reconcile_role_binding call ◌>>=◌ try
  reconcile_role_binding-SyncStep desired w reads =
      let key = key_of desired.meta in
      let w' = (client.get_role_binding key w).1 in
      let same = (laws.get_role_binding-keeps key).keeps w in
      let found = with_error foreign (client.get_role_binding key w).0 in
      let step = sync_found-SyncStep desired found w' (λ existing q.
        let got = with_error-ok foreign _ q in
        (
          ap (λ v. v key) same ∙ reads key w existing got,
          laws.get_role_binding-key key w existing got,
        )) in
      subst
        (λ v.
          AccessStep key (grant_of desired) (access v)
            (access (role_bindings (sync_found r desired found w').1)))
        same step
