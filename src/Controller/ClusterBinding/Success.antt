-- ===== src/Controller/ClusterBinding/Success.antt =====
-- internal/controller/clusterrbacgroupbinding_controller.go: Reconcile when the directory gives the members of the group.
use mathlib.Core.List.{Perm}
use directory_rbac_operator.Base.{
  String, ◌≡◌, ◌≢◌, inl, inr, refl, sym, ap, ◌∙◌, subst, Option, some, List,
}
use directory_rbac_operator.Go.Errors.{GoError, foreign}
use directory_rbac_operator.Go.Action.{
  Result, ok, err, ok≢err, ok-injective, Result-cases, pure, perform, try, of_result, ◌>>=◌, ◌>>◌,
  with_error,
}
use directory_rbac_operator.Go.Action.Bind.{>>-eq_ok}
use directory_rbac_operator.Go.Action.Keeps.{Keeps, pure-Keeps, perform-Keeps}
use directory_rbac_operator.Kube.Objects.{ObjectKey, key_of, RoleBinding, ClusterRoleBinding}
use directory_rbac_operator.Kube.Client.{ClientLaws, ClusterBindingStore}
use directory_rbac_operator.Metrics.{sync_duration}
use directory_rbac_operator.Api.{ClusterRbacGroupBinding, LdapProvider}
use directory_rbac_operator.Rbacsync.{subjects, build_cluster_role_binding}
use directory_rbac_operator.Controller.Common.{
  Grouper, ReconcileResult, SyncOutcome, sync_unchanged, sync_created, sync_updated, sync_recreated,
  record_success,
}
use directory_rbac_operator.Controller.Laws.{
  KeepsView, ResolverKeeps, RuntimeLaws, OwnsClusterRoleBindings,
}
use directory_rbac_operator.Controller.Stored.{HasStatus-later}
use directory_rbac_operator.Controller.ClusterBinding.Status.{
  ClusterRbacGroupBindingReconciler, cluster_rbac_group_binding_kind, mark_degraded, mark_ready,
}
use directory_rbac_operator.Controller.ClusterBinding.Sync.{reconcile_cluster_role_binding}
use directory_rbac_operator.Controller.Binding.InSync.{Synced, ReadsStored}
use directory_rbac_operator.Controller.ClusterBinding.Unscoped.{
  as_role_binding, as_binding, unscoped, unscoped_reconciler, reconcile_cluster_role_binding-Synced,
}
use directory_rbac_operator.Controller.ClusterBinding.Reconcile.{
  report, on_outcome, apply_members, on_members, on_grouper, reconcile,
}
use directory_rbac_operator.Controller.ClusterBinding.Frame.{provider_key, mark_ready-Keeps}
use directory_rbac_operator.Controller.ClusterBinding.Outcome.{
  HasStatus, IsReady, mark_degraded_lem, mark_ready_lem,
}
use directory_rbac_operator.Controller.Wanted.{users, named_cluster_role}
use directory_rbac_operator.Controller.ClusterBinding.Failsafe.{IsRead, reconcile_resolving}

module _ {W E : Type 0} (r : ClusterRbacGroupBindingReconciler W E)
    (laws : ClientLaws (unscoped r.client)) (store : ClusterBindingStore r.client)
    (keeps : KeepsView r.runtime laws.role_bindings)
    (resolver : ResolverKeeps r.grouper laws.role_bindings)
    (keeps_bindings : KeepsView r.runtime store.bindings) (rt : RuntimeLaws r.runtime)
    (owns : OwnsClusterRoleBindings r.runtime) where
  open r use {client, runtime, grouper}
  open laws use {role_bindings}
  open store use {bindings}
  open runtime use {constants}

  abbrev pub granted_key : ClusterRbacGroupBinding → ObjectKey
  granted_key b = record { namespace = ""; name = b.meta.name }

  -- The ClusterRoleBinding named like the binding, which `role_bindings` shows without a namespace, gives the
  -- members, in some order, the binding's role, and every other ClusterRoleBinding is as it was.
  pub record Grants (b : ClusterRbacGroupBinding) (members : List String)
      (before after : ObjectKey → Option RoleBinding) : Type 0 where
    pub stored : RoleBinding
    pub at_key : after (granted_key b) ≡ some stored
    pub has_subjects : Perm stored.subjects (users constants members)
    pub has_role : stored.role_ref ≡ named_cluster_role constants b
    pub elsewhere : (key : ObjectKey) → key ≢ granted_key b → after key ≡ before key

  status-Keeps :
      (b : ClusterRbacGroupBinding) → Keeps role_bindings (client.update_cluster_binding_status b)
  status-Keeps b = record { keeps = (laws.update_binding_status-keeps (as_binding b)).keeps }

  read-keeps :
      (req : ObjectKey) (w before : W) (b : ClusterRbacGroupBinding) (p : LdapProvider)
      → IsRead r req w b p before
      → role_bindings before ≡ role_bindings w
  read-keeps req w before b p h =
      ap role_bindings (sym h.then)
      ∙ (laws.get_provider-keeps (provider_key b)).keeps (client.get_cluster_binding req w).1
      ∙ (laws.get_binding-keeps req).keeps w

  mark_degraded-ne-ok :
      (b : ClusterRbacGroupBinding) (e : GoError E) (w : W) (a : ReconcileResult)
      → (mark_degraded r b e w).0 ≢ ok a
  mark_degraded-ne-ok b e w a h = elim (mark_degraded_lem r store rt b e w) [
    | inl (x, q) ↦ ok≢err (sym h ∙ q)
    | inr (q, _) ↦ ok≢err (sym h ∙ q)
  ]

  report-ok :
      (b : ClusterRbacGroupBinding) (name : String) (members : List String) (o : SyncOutcome)
      (w : W)
      → (report r b name members o w).0 ≡ ok tt
  unfolding report perform pure
  report-ok b name members sync_unchanged w = refl
  report-ok b name members sync_created w = refl
  report-ok b name members sync_updated w = refl
  report-ok b name members sync_recreated w = refl

  pub report-Keeps :
      (b : ClusterRbacGroupBinding) (name : String) (members : List String) (o : SyncOutcome)
      → Keeps role_bindings (report r b name members o)
  unfolding report record_success
  report-Keeps b name members sync_unchanged = pure-Keeps tt
  report-Keeps b name members sync_created = perform-Keeps _ (keeps.record_event-keeps _)
  report-Keeps b name members sync_updated = perform-Keeps _ (keeps.record_event-keeps _)
  report-Keeps b name members sync_recreated = perform-Keeps _ (keeps.record_event-keeps _)

  -- What a successful end of Reconcile says.
  record Ends (b : ClusterRbacGroupBinding) (p : LdapProvider) (members : List String) (w : W)
      (m : Result (GoError E) ReconcileResult × W) : Type 0 where
    granted : Grants b members (role_bindings w) (role_bindings m.1)
    status : HasStatus r store (key_of b.meta) m.1 (IsReady r store rt b members)
    requeue : m.0 ≡ ok (record { requeue_after = p.spec.sync_interval })

  on_outcome-ok :
      (b : ClusterRbacGroupBinding) (p : LdapProvider) (members : List String)
      (desired : ClusterRoleBinding) (found : Result (GoError E) SyncOutcome) (w : W)
      (a : ReconcileResult)
      → (on_outcome r b p members desired found w).0 ≡ ok a
      → ((o : SyncOutcome) × (found ≡ ok o))
        × (role_bindings (on_outcome r b p members desired found w).1 ≡ role_bindings w)
        × HasStatus r store
            (key_of b.meta)
            (on_outcome r b p members desired found w).1
            (IsReady r store rt b members)
        × ((on_outcome r b p members desired found w).0
            ≡ ok (record { requeue_after = p.spec.sync_interval }))
  unfolding on_outcome ◌>>◌
  on_outcome-ok b p members desired (err e) w a h = absurd (mark_degraded-ne-ok b e w a h)
  on_outcome-ok b p members desired (ok o) w a h =
      let interval = p.spec.sync_interval in
      let w' = (report r b desired.meta.name members o w).1 in
      let step =
        >>-eq_ok (report r b desired.meta.name members o) (mark_ready r b members interval) w a h in
      elim (mark_ready_lem r store rt b members interval w') [
        | inl (x, q) ↦ absurd (ok≢err (sym h ∙ ap (λ m. m.0) step.goes_on ∙ q))
        | inr (q, status) ↦ rw step.goes_on (
          (o, refl),
          (mark_ready-Keeps r role_bindings keeps status-Keeps b members interval).keeps w'
              ∙ (report-Keeps b desired.meta.name members o).keeps w,
          status,
          q,
        )
      ]

  grants :
      (b : ClusterRbacGroupBinding) (members : List String) (desired : ClusterRoleBinding)
      {before after : ObjectKey → Option RoleBinding}
      → runtime.own_cluster_role_binding b (build_cluster_role_binding constants b members)
        ≡ ok desired
      → Synced (as_role_binding desired) before after
      → Grants b members before after
  unfolding build_cluster_role_binding subjects
  grants b members desired {after = after} owned s =
      let (same_subjects, same_role, same_key) =
        owns.own_cluster_role_binding-content b _ desired owned in
      record {
        stored = s.stored;
        at_key = subst (λ k. after k ≡ some s.stored) same_key s.at_key;
        has_subjects = rw same_subjects at s.in_sync.subjects;
        has_role = s.in_sync.role_ref ∙ same_role;
        elsewhere = λ key other. s.elsewhere key (λ e. other (e ∙ same_key));
      }

  with_desired-Ends :
      (b : ClusterRbacGroupBinding) (p : LdapProvider) (members : List String)
      (desired : ClusterRoleBinding) (w : W) (a : ReconcileResult)
      → ReadsStored (unscoped_reconciler r) laws rt
      → runtime.own_cluster_role_binding b (build_cluster_role_binding constants b members)
        ≡ ok desired
      → let sync = reconcile_cluster_role_binding r desired w in
        let m = on_outcome r b p members desired sync.0 sync.1 in m.0 ≡ ok a → Ends b p members w m
  with_desired-Ends b p members desired w a reads owned h =
      let sync = reconcile_cluster_role_binding r desired w in
      let ((o, synced), same, status, requeue) =
        on_outcome-ok b p members desired sync.0 sync.1 a h in
      record {
        granted = subst (Grants b members (role_bindings w)) (sym same) (
            grants b members desired owned
              (reconcile_cluster_role_binding-Synced r laws rt desired w o reads synced));
        status = status;
        requeue = requeue;
      }

  apply_members-Ends :
      (b : ClusterRbacGroupBinding) (p : LdapProvider) (members : List String) (w : W)
      (a : ReconcileResult)
      → ReadsStored (unscoped_reconciler r) laws rt
      → (apply_members r b p members w).0 ≡ ok a
      → Ends b p members w (apply_members r b p members w)
  unfolding apply_members of_result ◌>>=◌ try with_error
  apply_members-Ends b p members w a reads h =
      let own =
        runtime.own_cluster_role_binding b (build_cluster_role_binding constants b members) in
      elim (Result-cases own) [
        | inl (desired, q) ↦ rw q (with_desired-Ends b p members desired w a reads q (rw q at h))
        | inr (e, q) ↦ absurd (ok≢err {a = a} {e = foreign e} (sym h ∙ rw q))
      ]

  -- When Reconcile of a cluster-wide binding succeeds after the directory gave the members of the group, the
  -- ClusterRoleBinding named like the binding holds exactly these members as subjects, in some order, with the
  -- binding's role, every other ClusterRoleBinding is as it was, the stored status is Ready alone and describes the
  -- members, and the next check is asked for after the provider's sync interval, provided that the client does not
  -- read a stale ClusterRoleBinding.
  pub reconcile_cluster-IsReady :
      (req : ObjectKey) (w before : W) (b : ClusterRbacGroupBinding) (p : LdapProvider)
      (g : Grouper W E) (members : List String) (a : ReconcileResult)
      → ReadsStored (unscoped_reconciler r) laws rt
      → IsRead r req w b p before
      → (grouper p before).0 ≡ ok g
      → (g b.spec.group_dn (grouper p before).1).0 ≡ ok members
      → (reconcile r req w).0 ≡ ok a
      → Grants b members (role_bindings w) (role_bindings (reconcile r req w).1)
        × HasStatus r store (key_of b.meta) (reconcile r req w).1 (IsReady r store rt b members)
        × (a ≡ record { requeue_after = p.spec.sync_interval })
  unfolding on_grouper on_members ◌>>=◌ try
  reconcile_cluster-IsReady req w before b p g members a reads read resolved answered h =
      let w' = (g b.spec.group_dn (grouper p before).1).1 in
      let steps = reconcile_resolving r req w before b p read in
      let at_members : on_grouper r b p (grouper p before).0 (grouper p before).1
          ≡ apply_members r b p members w' =
        rw (resolved, answered) in
      let same : role_bindings w' ≡ role_bindings w =
        (resolver.grouper-Keeps p before g b.spec.group_dn resolved).keeps (grouper p before).1
        ∙ (resolver.resolver-Keeps p).keeps before
        ∙ read-keeps req w before b p read in
      let path =
        steps
        ∙ ap (λ m. (m.0, runtime.observe (sync_duration cluster_rbac_group_binding_kind) m.1))
            at_members in
      let ends = apply_members-Ends b p members w' a reads (sym (ap (λ m. m.0) path) ∙ h) in
      (
        subst (Grants b members (role_bindings w))
            (sym (ap (λ m. role_bindings m.1) path ∙ keeps.observe-keeps _ _))
            (subst (λ v. Grants b members v (role_bindings (apply_members r b p members w').1)) same
              ends.granted),
        rw (ap (λ m. m.1) path)
            (HasStatus-later bindings _ (keeps_bindings.observe-keeps _ _) ends.status),
        ok-injective (sym h ∙ ap (λ m. m.0) path ∙ ends.requeue),
      )
