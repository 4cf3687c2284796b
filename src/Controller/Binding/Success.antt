-- ===== src/Controller/Binding/Success.antt =====
-- Reconcile when the directory gives the members of the group.
use mathlib.Core.List.{Perm}
use directory_rbac_operator.Base.{
  String, ◌≡◌, ◌≢◌, inl, inr, refl, sym, ap, ◌∙◌, subst, Option, some, List,
}
use directory_rbac_operator.Go.Errors.{GoError, foreign}
use directory_rbac_operator.Go.Action.{
  Result, ok, err, ok≢err, ok-injective, Result-cases, pure, perform, try, of_result, ◌>>=◌, ◌>>◌,
  with_error,
}
use directory_rbac_operator.Go.Action.Bind.{>>-eq_ok}
use directory_rbac_operator.Go.Action.Keeps.{Keeps, pure-Keeps, perform-Keeps}
use directory_rbac_operator.Kube.Objects.{ObjectKey, key_of, RoleBinding}
use directory_rbac_operator.Kube.Client.{ClientLaws}
use directory_rbac_operator.Metrics.{sync_duration}
use directory_rbac_operator.Api.{RbacGroupBinding, LdapProvider}
use directory_rbac_operator.Rbacsync.{subjects, build_role_binding}
use directory_rbac_operator.Controller.Common.{
  Grouper, ReconcileResult, SyncOutcome, sync_unchanged, sync_created, sync_updated, sync_recreated,
  record_success,
}
use directory_rbac_operator.Controller.Laws.{KeepsView, ResolverKeeps, RuntimeLaws}
use directory_rbac_operator.Controller.Stored.{HasStatus-later}
use directory_rbac_operator.Controller.Binding.Status.{
  RbacGroupBindingReconciler, rbac_group_binding_kind, mark_degraded, mark_ready,
}
use directory_rbac_operator.Controller.Binding.Sync.{reconcile_role_binding}
use directory_rbac_operator.Controller.Binding.InSync.{
  Synced, ReadsStored, reconcile_role_binding-Synced,
}
use directory_rbac_operator.Controller.Binding.Reconcile.{
  report, on_outcome, apply_members, on_members, on_grouper, reconcile,
}
use directory_rbac_operator.Controller.Wanted.{users, named_role}
use directory_rbac_operator.Controller.Binding.Frame.{mark_ready-Keeps}
use directory_rbac_operator.Controller.Binding.Outcome.{
  HasStatus, IsReady, mark_degraded_lem, mark_ready_lem,
}
use directory_rbac_operator.Controller.Binding.Failsafe.{IsRead, IsRead-keeps, reconcile_resolving}

module _ {W E : Type 0} (r : RbacGroupBindingReconciler W E) (laws : ClientLaws r.client)
    (keeps : KeepsView r.runtime laws.role_bindings)
    (resolver : ResolverKeeps r.grouper laws.role_bindings)
    (keeps_bindings : KeepsView r.runtime laws.bindings) (rt : RuntimeLaws r.runtime) where
  open r use {client, runtime, grouper}
  open laws use {role_bindings, bindings}
  open runtime use {constants}

  -- The RoleBinding named like the binding gives the members, in some order, the binding's role, and every
  -- other RoleBinding is as it was.
  pub record Grants (b : RbacGroupBinding) (members : List String)
      (before after : ObjectKey → Option RoleBinding) : Type 0 where
    pub stored : RoleBinding
    pub at_key : after (key_of b.meta) ≡ some stored
    pub has_subjects : Perm stored.subjects (users constants members)
    pub has_role : stored.role_ref ≡ named_role constants b
    pub elsewhere : (key : ObjectKey) → key ≢ key_of b.meta → after key ≡ before key

  mark_degraded-ne-ok :
      (b : RbacGroupBinding) (e : GoError E) (w : W) (a : ReconcileResult)
      → (mark_degraded r b e w).0 ≢ ok a
  mark_degraded-ne-ok b e w a h = elim (mark_degraded_lem r laws rt b e w) [
    | inl (x, q) ↦ ok≢err (sym h ∙ q)
    | inr (q, _) ↦ ok≢err (sym h ∙ q)
  ]

  report-ok :
      (b : RbacGroupBinding) (name : String) (members : List String) (o : SyncOutcome) (w : W)
      → (report r b name members o w).0 ≡ ok tt
  unfolding report perform pure
  report-ok b name members sync_unchanged w = refl
  report-ok b name members sync_created w = refl
  report-ok b name members sync_updated w = refl
  report-ok b name members sync_recreated w = refl

  pub report-Keeps :
      (b : RbacGroupBinding) (name : String) (members : List String) (o : SyncOutcome)
      → Keeps role_bindings (report r b name members o)
  unfolding report record_success
  report-Keeps b name members sync_unchanged = pure-Keeps tt
  report-Keeps b name members sync_created = perform-Keeps _ (keeps.record_event-keeps _)
  report-Keeps b name members sync_updated = perform-Keeps _ (keeps.record_event-keeps _)
  report-Keeps b name members sync_recreated = perform-Keeps _ (keeps.record_event-keeps _)

  -- What a successful end of Reconcile says.
  record Ends (b : RbacGroupBinding) (p : LdapProvider) (members : List String) (w : W)
      (m : Result (GoError E) ReconcileResult × W) : Type 0 where
    granted : Grants b members (role_bindings w) (role_bindings m.1)
    status : HasStatus r laws (key_of b.meta) m.1 (IsReady r laws rt b members)
    requeue : m.0 ≡ ok (record { requeue_after = p.spec.sync_interval })

  on_outcome-ok :
      (b : RbacGroupBinding) (p : LdapProvider) (members : List String) (desired : RoleBinding)
      (found : Result (GoError E) SyncOutcome) (w : W) (a : ReconcileResult)
      → (on_outcome r b p members desired found w).0 ≡ ok a
      → ((o : SyncOutcome) × (found ≡ ok o))
        × (role_bindings (on_outcome r b p members desired found w).1 ≡ role_bindings w)
        × HasStatus r laws
            (key_of b.meta)
            (on_outcome r b p members desired found w).1
            (IsReady r laws rt b members)
        × ((on_outcome r b p members desired found w).0
            ≡ ok (record { requeue_after = p.spec.sync_interval }))
  unfolding on_outcome ◌>>◌
  on_outcome-ok b p members desired (err e) w a h = absurd (mark_degraded-ne-ok b e w a h)
  on_outcome-ok b p members desired (ok o) w a h =
      let interval = p.spec.sync_interval in
      let w' = (report r b desired.meta.name members o w).1 in
      let step =
        >>-eq_ok (report r b desired.meta.name members o) (mark_ready r b members interval) w a h in
      elim (mark_ready_lem r laws rt b members interval w') [
        | inl (x, q) ↦ absurd (ok≢err (sym h ∙ ap (λ m. m.0) step.goes_on ∙ q))
        | inr (q, status) ↦ rw step.goes_on (
          (o, refl),
          (mark_ready-Keeps r laws keeps resolver b members interval).keeps w'
              ∙ (report-Keeps b desired.meta.name members o).keeps w,
          status,
          q,
        )
      ]

  grants :
      (b : RbacGroupBinding) (members : List String) (desired : RoleBinding)
      {before after : ObjectKey → Option RoleBinding}
      → runtime.own_role_binding b (build_role_binding constants b members) ≡ ok desired
      → Synced desired before after
      → Grants b members before after
  unfolding build_role_binding subjects
  grants b members desired {after = after} owned s =
      let (same_subjects, same_role, same_key) = rt.own_role_binding-content b _ desired owned in
      record {
        stored = s.stored;
        at_key = subst (λ k. after k ≡ some s.stored) same_key s.at_key;
        has_subjects = rw same_subjects at s.in_sync.subjects;
        has_role = s.in_sync.role_ref ∙ same_role;
        elsewhere = λ key other. s.elsewhere key (λ e. other (e ∙ same_key));
      }

  with_desired-Ends :
      (b : RbacGroupBinding) (p : LdapProvider) (members : List String) (desired : RoleBinding)
      (w : W) (a : ReconcileResult)
      → ReadsStored r laws rt
      → runtime.own_role_binding b (build_role_binding constants b members) ≡ ok desired
      → let sync = reconcile_role_binding r desired w in
        let m = on_outcome r b p members desired sync.0 sync.1 in m.0 ≡ ok a → Ends b p members w m
  with_desired-Ends b p members desired w a reads owned h =
      let sync = reconcile_role_binding r desired w in
      let ((o, synced), same, status, requeue) =
        on_outcome-ok b p members desired sync.0 sync.1 a h in
      record {
        granted = subst (Grants b members (role_bindings w)) (sym same) (
            grants b members desired owned
              (reconcile_role_binding-Synced r laws rt desired w o reads synced));
        status = status;
        requeue = requeue;
      }

  apply_members-Ends :
      (b : RbacGroupBinding) (p : LdapProvider) (members : List String) (w : W)
      (a : ReconcileResult)
      → ReadsStored r laws rt
      → (apply_members r b p members w).0 ≡ ok a
      → Ends b p members w (apply_members r b p members w)
  unfolding apply_members of_result ◌>>=◌ try with_error
  apply_members-Ends b p members w a reads h =
      let own = runtime.own_role_binding b (build_role_binding constants b members) in
      elim (Result-cases own) [
        | inl (desired, q) ↦ rw q (with_desired-Ends b p members desired w a reads q (rw q at h))
        | inr (e, q) ↦ absurd (ok≢err {a = a} {e = foreign e} (sym h ∙ rw q))
      ]

  -- When Reconcile succeeds after the directory gave the members of the group, the RoleBinding named like the
  -- binding holds exactly these members as subjects, in some order, with the binding's role,
  -- every other RoleBinding is as it was, the stored status is Ready alone and describes
  -- the members, and the next check is asked for after the provider's sync interval, provided that
  -- the client does not read a stale RoleBinding.
  pub reconcile-IsReady :
      (req : ObjectKey) (w before : W) (b : RbacGroupBinding) (p : LdapProvider) (g : Grouper W E)
      (members : List String) (a : ReconcileResult)
      → ReadsStored r laws rt
      → IsRead r req w b p before
      → (grouper p before).0 ≡ ok g
      → (g b.spec.group_dn (grouper p before).1).0 ≡ ok members
      → (reconcile r req w).0 ≡ ok a
      → Grants b members (role_bindings w) (role_bindings (reconcile r req w).1)
        × HasStatus r laws (key_of b.meta) (reconcile r req w).1 (IsReady r laws rt b members)
        × (a ≡ record { requeue_after = p.spec.sync_interval })
  unfolding on_grouper on_members ◌>>=◌ try
  reconcile-IsReady req w before b p g members a reads read resolved answered h =
      let w' = (g b.spec.group_dn (grouper p before).1).1 in
      let steps = reconcile_resolving r req w before b p read in
      let at_members : on_grouper r b p (grouper p before).0 (grouper p before).1
          ≡ apply_members r b p members w' =
        rw (resolved, answered) in
      let same : role_bindings w' ≡ role_bindings w =
        (resolver.grouper-Keeps p before g b.spec.group_dn resolved).keeps (grouper p before).1
        ∙ (resolver.resolver-Keeps p).keeps before
        ∙ IsRead-keeps r laws keeps resolver keeps_bindings rt req w before b p read in
      let path =
        steps
        ∙ ap (λ m. (m.0, runtime.observe (sync_duration rbac_group_binding_kind) m.1)) at_members in
      let ends = apply_members-Ends b p members w' a reads (sym (ap (λ m. m.0) path) ∙ h) in
      (
        subst (Grants b members (role_bindings w))
            (sym (ap (λ m. role_bindings m.1) path ∙ keeps.observe-keeps _ _))
            (subst (λ v. Grants b members v (role_bindings (apply_members r b p members w').1)) same
              ends.granted),
        rw (ap (λ m. m.1) path)
            (HasStatus-later bindings _ (keeps_bindings.observe-keeps _ _) ends.status),
        ok-injective (sym h ∙ ap (λ m. m.0) path ∙ ends.requeue),
      )
