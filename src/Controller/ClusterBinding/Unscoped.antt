-- ===== src/Controller/ClusterBinding/Unscoped.antt =====
-- internal/controller: reconcileClusterRoleBinding is reconcileRoleBinding on objects without a namespace, so that
-- what holds of the one holds of the other.
use directory_rbac_operator.Base.{◌≡◌, refl, sym, ap, ◌∙◌, inl, inr}
use directory_rbac_operator.Go.Action.{Result, ok, err, Result-cases, try, ◌>>=◌, call, with_error}
use directory_rbac_operator.Kube.Objects.{key_of, RoleBinding, ClusterRoleBinding}
use directory_rbac_operator.Kube.Client.{Client, ClientLaws, AtomicWrites}
use directory_rbac_operator.Api.{RbacGroupBinding, ClusterRbacGroupBinding}
use directory_rbac_operator.Controller.Common.{SyncOutcome}
use directory_rbac_operator.Controller.Laws.{RuntimeLaws}
use directory_rbac_operator.Controller.Binding.Status.{RbacGroupBindingReconciler}
use directory_rbac_operator.Controller.Binding.Sync
use directory_rbac_operator.Controller.Binding.Sync.{reconcile_role_binding}
use directory_rbac_operator.Controller.Binding.InSync.{
  Synced, ReadsStored, reconcile_role_binding-Synced,
}
use directory_rbac_operator.Controller.Binding.Steps.{SyncStep, reconcile_role_binding-SyncStep}
use directory_rbac_operator.Controller.ClusterBinding.Status.{ClusterRbacGroupBindingReconciler}
use directory_rbac_operator.Controller.ClusterBinding.Sync.{
  with_subjects, sync_subjects, recreate, create, sync_found, reconcile_cluster_role_binding,
}

abbrev pub as_role_binding : ClusterRoleBinding → RoleBinding
as_role_binding rb = record { meta = rb.meta; subjects = rb.subjects; role_ref = rb.role_ref }

abbrev pub as_cluster_role_binding : RoleBinding → ClusterRoleBinding
as_cluster_role_binding rb = record {
  meta = rb.meta;
  subjects = rb.subjects;
  role_ref = rb.role_ref;
}

abbrev pub as_binding : ClusterRbacGroupBinding → RbacGroupBinding
as_binding b = record {
  meta = b.meta;
  spec = record {
    provider_ref = b.spec.provider_ref;
    group_dn = b.spec.group_dn;
    role_ref = record { kind = "ClusterRole"; name = b.spec.cluster_role_ref };
  };
  status = record {
    observed_generation = b.status.observed_generation;
    conditions = b.status.conditions;
    last_sync_time = b.status.last_sync_time;
    member_count = b.status.member_count;
    members_preview = b.status.members_preview;
    members_truncated = b.status.members_truncated;
    members_hash = b.status.members_hash;
    role_binding_ref = b.status.cluster_role_binding_ref;
  };
}

abbrev pub as_cluster_binding : RbacGroupBinding → ClusterRbacGroupBinding
as_cluster_binding b = record {
  meta = b.meta;
  spec = record {
    provider_ref = b.spec.provider_ref;
    group_dn = b.spec.group_dn;
    cluster_role_ref = b.spec.role_ref.name;
  };
  status = record {
    observed_generation = b.status.observed_generation;
    conditions = b.status.conditions;
    last_sync_time = b.status.last_sync_time;
    member_count = b.status.member_count;
    members_preview = b.status.members_preview;
    members_truncated = b.status.members_truncated;
    members_hash = b.status.members_hash;
    cluster_role_binding_ref = b.status.role_binding_ref;
  };
}

abbrev pub on_ok : {X A B : Type 0} → (A → B) → Result X A → Result X B
on_ok f (ok a) = ok (f a)
on_ok f (err e) = err e

-- The client, with cluster-wide objects in the place of namespaced ones.
abbrev pub unscoped : {W E : Type 0} → Client W E → Client W E
unscoped c = record c {
  get_binding = λ key w. let (b, w') = c.get_cluster_binding key w in (on_ok as_binding b, w');
  update_binding_status = λ b. c.update_cluster_binding_status (as_cluster_binding b);
  get_role_binding =
      λ key w. let (rb, w') = c.get_cluster_role_binding key w in (on_ok as_role_binding rb, w');
  create_role_binding = λ rb. c.create_cluster_role_binding (as_cluster_role_binding rb);
  update_role_binding = λ rb. c.update_cluster_role_binding (as_cluster_role_binding rb);
  delete_role_binding = λ rb. c.delete_cluster_role_binding (as_cluster_role_binding rb);
}

module _ {W E : Type 0} (r : ClusterRbacGroupBindingReconciler W E) where
  open r use {client, runtime, grouper}

  abbrev pub unscoped_reconciler : RbacGroupBindingReconciler W E
  unscoped_reconciler = record { client = unscoped client; runtime = runtime; grouper = grouper }

  -- The two functions make the same calls and answer the same.
  pub reconcile_cluster_role_binding-eq :
      (desired : ClusterRoleBinding) (w : W)
      → reconcile_cluster_role_binding r desired w
        ≡ reconcile_role_binding unscoped_reconciler (as_role_binding desired) w
  unfolding reconcile_cluster_role_binding reconcile_role_binding ◌>>=◌ try call with_error
      sync_found sync_subjects with_subjects recreate create Sync.sync_found Sync.sync_subjects
      Sync.with_subjects Sync.recreate Sync.create
  reconcile_cluster_role_binding-eq desired w =
      elim (Result-cases (client.get_cluster_role_binding (key_of desired.meta) w).0) [
        | inl (existing, q) ↦ rw q refl
        | inr (e, q) ↦ rw q refl
      ]

  module _ (laws : ClientLaws (unscoped client)) (rt : RuntimeLaws runtime) where
    open laws use {role_bindings}

    -- If reconcileClusterRoleBinding succeeds, whichever way it took, the stored ClusterRoleBinding has the wanted
    -- subjects in some order, the wanted role and the wanted owners, and every other one is as it was, provided that
    -- the client does not read a stale ClusterRoleBinding.
    pub reconcile_cluster_role_binding-Synced :
        (desired : ClusterRoleBinding) (w : W) (o : SyncOutcome)
        → ReadsStored unscoped_reconciler laws rt
        → (reconcile_cluster_role_binding r desired w).0 ≡ ok o
        → Synced
            (as_role_binding desired)
            (role_bindings w)
            (role_bindings (reconcile_cluster_role_binding r desired w).1)
    reconcile_cluster_role_binding-Synced desired w o reads h =
        let same = reconcile_cluster_role_binding-eq desired w in
        rw same (
          reconcile_role_binding-Synced unscoped_reconciler laws rt (as_role_binding desired) w o
            reads (sym (ap (λ m. m.0) same) ∙ h))

    -- Whatever its calls answer, reconcileClusterRoleBinding makes one step of the access that is promised.
    pub reconcile_cluster_role_binding-SyncStep :
        (atomic : AtomicWrites (unscoped client) role_bindings) (desired : ClusterRoleBinding)
        (w : W)
        → ReadsStored unscoped_reconciler laws rt
        → SyncStep unscoped_reconciler laws atomic
            (as_role_binding desired)
            w
            (reconcile_cluster_role_binding r desired w).1
    reconcile_cluster_role_binding-SyncStep atomic desired w reads =
        rw (reconcile_cluster_role_binding-eq desired w) (
          reconcile_role_binding-SyncStep unscoped_reconciler laws atomic (as_role_binding desired)
            w reads)
