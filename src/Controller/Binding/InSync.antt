-- ===== src/Controller/Binding/InSync.antt =====
-- reconcileRoleBinding does what it promises: after a success the RoleBinding is the wanted one, and a
-- second call has nothing left to write.
use mathlib.Core.List.{Perm}
use mathlib.Core.List.Perm
use directory_rbac_operator.Base.{
  String, ◌≡◌, ◌≢◌, ◌↔◌, ◌&&◌, inl, inr, refl, sym, ap, ◌∙◌, subst, Bool, true, arith, eq_iff,
  Bool-cases, Option, some,
}
use directory_rbac_operator.Go.Errors.{GoError, foreign, foreign_test}
use directory_rbac_operator.Go.Action.{
  Result, ok, err, ok≢err, Action, try, pure, fail, ◌>>=◌, ◌>>◌, call, with_error, with_error-ok,
}
use directory_rbac_operator.Go.Action.Bind.{>>-eq_ok}
use directory_rbac_operator.Kube.Objects.{ObjectKey, key_of, RbacRoleRef, RoleBinding}
use directory_rbac_operator.Kube.Client.{ClientLaws, Wrote}
use directory_rbac_operator.Rbacsync.Diff.Equal.{
  OfGroup, subjects_equal-perm, subjects_equal_iff_perm,
}
use directory_rbac_operator.Rbacsync.Diff.{subjects_equal}
use directory_rbac_operator.Controller.Common.{
  SyncOutcome, sync_unchanged, sync_created, sync_updated, sync_recreated, same_role_ref,
}
use directory_rbac_operator.Controller.Laws.{RuntimeLaws}
use directory_rbac_operator.Controller.Binding.Status.{RbacGroupBindingReconciler}
use directory_rbac_operator.Controller.Binding.Sync.{
  with_subjects, sync_subjects, recreate, create, sync_found, reconcile_role_binding,
}

-- The stored RoleBinding grants what is wanted: the same subjects in some order, the same role and the
-- same owners.
pub record InSync (desired stored : RoleBinding) : Type 0 where
  pub subjects : Perm stored.subjects desired.subjects
  pub role_ref : stored.role_ref ≡ desired.role_ref
  pub owners : stored.meta.owner_references ≡ desired.meta.owner_references

pub same_role_ref_iff : (a b : RbacRoleRef) → (same_role_ref a b ≡ true) ↔ (a ≡ b)
unfolding same_role_ref
same_role_ref_iff a b =
    ground (arith, eq_iff a.api_group b.api_group, eq_iff a.kind b.kind, eq_iff a.name b.name)

-- What a world holds of the wanted RoleBinding, and of all others.
pub record Synced (desired : RoleBinding) (before after : ObjectKey → Option RoleBinding)
    : Type 0 where
  pub stored : RoleBinding
  pub at_key : after (key_of desired.meta) ≡ some stored
  pub in_sync : InSync desired stored
  pub elsewhere : (key : ObjectKey) → key ≢ key_of desired.meta → after key ≡ before key

of_content :
    {sent desired : RoleBinding} {before after : ObjectKey → Option RoleBinding}
    → Wrote sent before after
    → key_of sent.meta ≡ key_of desired.meta
    → sent.subjects ≡ desired.subjects
    → sent.role_ref ≡ desired.role_ref
    → sent.meta.owner_references ≡ desired.meta.owner_references
    → Synced desired before after
of_content {after = after} wrote key subjects role owners = record {
  stored = wrote.stored;
  at_key = subst (λ k. after k ≡ some wrote.stored) key wrote.at_key;
  in_sync = record {
    subjects = rw (wrote.content.same_subjects ∙ subjects) Perm.rfl;
    role_ref = wrote.content.same_role_ref ∙ role;
    owners = wrote.content.same_owners ∙ owners;
  };
  elsewhere = λ k other. wrote.elsewhere k (λ e. other (e ∙ key));
}

and_true : (a b : Bool) → (a && b) ≡ true → (a ≡ true) × (b ≡ true)
and_true a b h = ground arith

module _ {W E : Type 0} (r : RbacGroupBindingReconciler W E) (laws : ClientLaws r.client)
    (rt : RuntimeLaws r.runtime) where
  open r use {client, runtime}
  open laws use {role_bindings}

  -- A Create, and whatever outcome is reported after it.
  abbrev created : RoleBinding → SyncOutcome → Action W (GoError E) SyncOutcome
  created desired outcome = call (client.create_role_binding desired) >> pure outcome

  created-Synced :
      (desired : RoleBinding) (outcome : SyncOutcome) (w : W) (o : SyncOutcome)
      → (created desired outcome w).0 ≡ ok o
      → Synced desired (role_bindings w) (role_bindings (created desired outcome w).1)
  unfolding call pure ◌>>◌
  created-Synced desired outcome w o h =
      let step = >>-eq_ok (call (client.create_role_binding desired)) (pure outcome) w o h in
      rw (ap (λ p. p.1) step.goes_on) (
        of_content (laws.create_role_binding-wrote desired w (with_error-ok foreign _ step.passed))
          refl refl refl refl)

  sync_subjects-Synced :
      (desired existing : RoleBinding) (w : W) (o : SyncOutcome)
      → role_bindings w (key_of desired.meta) ≡ some existing
      → key_of existing.meta ≡ key_of desired.meta
      → existing.role_ref ≡ desired.role_ref
      → (sync_subjects r desired existing w).0 ≡ ok o
      → Synced desired (role_bindings w) (role_bindings (sync_subjects r desired existing w).1)
  unfolding sync_subjects with_subjects call pure ◌>>◌
  sync_subjects-Synced desired existing w o at key role h =
      let same =
        subjects_equal runtime.subject_sorter existing.subjects desired.subjects
        && runtime.same_owner_references existing.meta.owner_references
            desired.meta.owner_references in
      elim (Bool-cases same) [
        | inl q ↦
            let (equal, owners) = and_true _ _ q in
            rw q (record {
              stored = existing;
              at_key = at;
              in_sync = record {
                subjects = subjects_equal-perm runtime.subject_sorter _ _ equal;
                role_ref = role;
                owners = (rt.same_owner_references-iff _ _).0 owners;
              };
              elsewhere = λ k other. refl;
            })
        | inr q ↦
            let update = call (client.update_role_binding (with_subjects existing desired)) in
            let step = >>-eq_ok update (pure sync_updated) w o (rw q at h) in
            rw q (
              rw (ap (λ p. p.1) step.goes_on) (
                of_content
                  (laws.update_role_binding-wrote _ w (with_error-ok foreign _ step.passed)) key
                  refl role refl))
      ]

  recreate-Synced :
      (desired existing : RoleBinding) (w : W) (o : SyncOutcome)
      → key_of existing.meta ≡ key_of desired.meta
      → (recreate r desired existing w).0 ≡ ok o
      → Synced desired (role_bindings w) (role_bindings (recreate r desired existing w).1)
  unfolding recreate call ◌>>◌
  recreate-Synced desired existing w o key h =
      let delete = call (client.delete_role_binding existing) in
      let step = >>-eq_ok delete (created desired sync_recreated) w o h in
      let w' = (client.delete_role_binding existing w).1 in
      let made =
        created-Synced desired sync_recreated w' o (ap (λ p. p.0) (sym step.goes_on) ∙ h) in
      rw (ap (λ p. p.1) step.goes_on) (record {
        stored = made.stored;
        at_key = made.at_key;
        in_sync = made.in_sync;
        elsewhere = λ k other.
            made.elsewhere k other
            ∙ laws.delete_role_binding-elsewhere existing w k (λ e. other (e ∙ key));
      })

  sync_found-Synced :
      (desired : RoleBinding) (found : Result (GoError E) RoleBinding) (w : W) (o : SyncOutcome)
      → ((existing : RoleBinding)
          → found ≡ ok existing
          → (role_bindings w (key_of desired.meta) ≡ some existing)
            × (key_of existing.meta ≡ key_of desired.meta))
      → (sync_found r desired found w).0 ≡ ok o
      → Synced desired (role_bindings w) (role_bindings (sync_found r desired found w).1)
  unfolding sync_found fail create
  sync_found-Synced desired (err e) w o at h =
      elim (Bool-cases (foreign_test client.is_not_found e)) [
        | inl q ↦ rw q (created-Synced desired sync_created w o (rw q at h))
        | inr q ↦ absurd (ok≢err {a = o} {e = e} (sym h ∙ rw q))
      ]
  sync_found-Synced desired (ok existing) w o at h =
      let (stored, key) = at existing refl in
      elim (Bool-cases (same_role_ref existing.role_ref desired.role_ref)) [
        | inl q ↦ rw q (
            sync_subjects-Synced desired existing w o stored key ((same_role_ref_iff _ _).0 q)
              (rw q at h))
        | inr q ↦ rw q (recreate-Synced desired existing w o key (rw q at h))
      ]

  -- The client's reads answer with what is stored.
  abbrev pub ReadsStored : Type 0
  ReadsStored =
      (key : ObjectKey) (w : W) (rb : RoleBinding)
      → (client.get_role_binding key w).0 ≡ ok rb
      → role_bindings w key ≡ some rb

  -- If reconcileRoleBinding succeeds, whichever way it took, the stored RoleBinding has the wanted
  -- subjects in some order, the wanted role and the wanted owners, and every other RoleBinding is
  -- as it was, provided that the client does not read a stale RoleBinding.
  pub reconcile_role_binding-Synced :
      (desired : RoleBinding) (w : W) (o : SyncOutcome)
      → ReadsStored
      → (reconcile_role_binding r desired w).0 ≡ ok o
      → Synced desired (role_bindings w) (role_bindings (reconcile_role_binding r desired w).1)
  unfolding reconcile_role_binding call ◌>>=◌ try
  reconcile_role_binding-Synced desired w o reads h =
      let key = key_of desired.meta in
      let w' = (client.get_role_binding key w).1 in
      let same = (laws.get_role_binding-keeps key).keeps w in
      let found = with_error foreign (client.get_role_binding key w).0 in
      let done =
        sync_found-Synced desired found w' o
          (λ existing q.
            let got = with_error-ok foreign _ q in
            (
              ap (λ v. v key) same ∙ reads key w existing got,
              laws.get_role_binding-key key w existing got,
            ))
          h in
      subst (λ v. Synced desired v (role_bindings (sync_found r desired found w').1)) same done

  -- Once what Get reads is in sync with a RoleBinding whose subjects are of one API group,
  -- reconcileRoleBinding reports that nothing changed and makes no call but that Get.
  pub reconcile_role_binding_again :
      (desired existing : RoleBinding) (g : String) (w : W)
      → OfGroup g existing.subjects
      → InSync desired existing
      → (client.get_role_binding (key_of desired.meta) w).0 ≡ ok existing
      → reconcile_role_binding r desired w
        ≡ (ok sync_unchanged, (client.get_role_binding (key_of desired.meta) w).1)
  unfolding reconcile_role_binding call ◌>>=◌ try sync_found sync_subjects pure with_error
  reconcile_role_binding_again desired existing g w group sync got = rw (
    got,
    (same_role_ref_iff existing.role_ref desired.role_ref).1 sync.role_ref,
    (subjects_equal_iff_perm runtime.subject_sorter g existing.subjects desired.subjects group).1
        sync.subjects,
    (rt.same_owner_references-iff _ _).1 sync.owners,
  )
