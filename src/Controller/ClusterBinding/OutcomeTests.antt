-- ===== src/Controller/ClusterBinding/OutcomeTests.antt =====
-- Reconcile of a cluster-wide binding, for each answer of the directory.
use directory_rbac_operator.Base.{pos, String, ◌≡◌, ◌⊎◌, refl, sym, arith, some, List, [], ◌∷◌}
use directory_rbac_operator.Go.Errors.{GoError, foreign_test, is_group_not_found, group_not_found}
use directory_rbac_operator.Go.Action.{
  Result, ok, err, ok-injective, pure, reading, try, of_result, deferring, perform, ◌>>=◌, ◌>>◌,
  call, with_error,
}
use directory_rbac_operator.Kube.Objects.{key_of}
use directory_rbac_operator.Kube.Client.{ClusterBindingStore}
use directory_rbac_operator.Rbacsync.{subjects, build_cluster_role_binding}
use directory_rbac_operator.Rbacsync.Diff.{preview_members, members_hash, member_count}
use directory_rbac_operator.Controller.Common.{
  GrouperResolver, ReconcileResult, set_conditions, record_success,
}
use directory_rbac_operator.Controller.Laws.{KeepsView, ResolverKeeps, OwnsClusterRoleBindings}
use directory_rbac_operator.Controller.Stored.{Refused}
use directory_rbac_operator.Controller.Sample.{ApiError}
use directory_rbac_operator.Controller.ClusterBinding.Status.{
  ClusterRbacGroupBindingReconciler, mark_ready, ready_conditions, ready_binding,
}
use directory_rbac_operator.Controller.ClusterBinding.Sync.{
  reconcile_cluster_role_binding, sync_found, create,
}
use directory_rbac_operator.Controller.ClusterBinding.Reconcile.{
  reconcile, on_binding, on_provider, on_grouper, on_members, apply_members, on_outcome, report,
}
use directory_rbac_operator.Controller.ClusterBinding.Outcome.{HasStatus, IsGroupNotFound, IsReady}
use directory_rbac_operator.Controller.ClusterBinding.Failsafe.{
  IsRead, reconcile_cluster-IsGroupNotFound,
}
use directory_rbac_operator.Controller.ClusterBinding.Success.{Grants, reconcile_cluster-IsReady}
use directory_rbac_operator.Controller.ClusterBinding.Tests.{
  Cluster, client, runtime, provider, cluster, auditors, client_keeps, runtime_keeps,
}
use directory_rbac_operator.Controller.ClusterBinding.TestLaws.{
  role_bindings, laws, runtime_laws, reads_stored,
}

abbrev Answer : Type 0
Answer = Result (GoError ApiError) (List String)

abbrev answering : Answer → GrouperResolver Cluster ApiError
answering answer p w = (ok (λ dn w'. (answer, w')), w)

abbrev reconciler : Answer → ClusterRbacGroupBindingReconciler Cluster ApiError
reconciler answer = record { client = client; runtime = runtime; grouper = answering answer }

answering-keeps :
    {V : Type 0} (view : Cluster → V) (answer : Answer) → ResolverKeeps (answering answer) view
answering-keeps view answer = record {
  resolver-Keeps = λ p. record { keeps = λ w. refl };
  grouper-Keeps = λ p w g dn h. rw (sym (ok-injective h)) (record { keeps = λ w'. refl });
}

abbrev store : ClusterBindingStore client
store = record {
  bindings = λ w key. some w.binding;
  update_cluster_binding_status-stored = λ b w h. (b, refl, refl);
}

keeps_bindings : KeepsView runtime store.bindings
keeps_bindings = record {
  now-keeps = λ w. refl;
  set_status_condition-keeps = λ cs c w. refl;
  record_event-keeps = λ e w. refl;
  observe-keeps = λ m w. refl;
}

keeps_role_bindings : KeepsView runtime role_bindings
keeps_role_bindings = record {
  now-keeps = λ w. refl;
  set_status_condition-keeps = λ cs c w. refl;
  record_event-keeps = λ e w. refl;
  observe-keeps = λ m w. refl;
}

owns : OwnsClusterRoleBindings runtime
owns = record { own_cluster_role_binding-content = λ b rb owned h. ground arith }

is_read :
    (answer : Answer) → IsRead (reconciler answer) auditors cluster cluster.binding provider cluster
is_read answer = record { binding_found = refl; provider_found = refl; then = refl }

-- A group that the directory does not have.
reconcile_cluster-IsGroupNotFound_example :
    let r = reconciler (err group_not_found) in
    let (res, after) = reconcile r auditors cluster in
    (after.cluster_role_bindings ≡ cluster.cluster_role_bindings)
    × (Refused res
        ⊎ ((res ≡ ok (record { requeue_after = pos 60000000000 }))
            × HasStatus r store
                (key_of cluster.binding.meta)
                after
                (IsGroupNotFound r store runtime_laws cluster.binding)))
unfolding is_group_not_found
reconcile_cluster-IsGroupNotFound_example =
    reconcile_cluster-IsGroupNotFound (reconciler (err group_not_found)) client_keeps store
      runtime_keeps (answering-keeps _ _) keeps_bindings runtime_laws auditors cluster cluster
      cluster.binding provider group_not_found (λ dn w. (err group_not_found, w)) (is_read _) refl
      refl refl

-- Everything that a run which creates the ClusterRoleBinding computes with.
program : Unit {0}
unfolding reconcile on_binding on_provider on_grouper on_members apply_members on_outcome report
    mark_ready ready_conditions ready_binding reconcile_cluster_role_binding sync_found create
    build_cluster_role_binding subjects preview_members members_hash member_count set_conditions
    record_success foreign_test pure reading try of_result deferring perform ◌>>=◌ ◌>>◌ with_error
    call
program = tt

abbrev members : List String
members = "alice" ∷ "bob" ∷ []

reconcile_cluster-IsReady_example :
    let r = reconciler (ok members) in
    let after = (reconcile r auditors cluster).1 in
    Grants r laws store keeps_role_bindings
      (answering-keeps _ _)
      keeps_bindings
      runtime_laws
      owns
      cluster.binding
      members
      (role_bindings cluster)
      (role_bindings after)
    × HasStatus r store
        (key_of cluster.binding.meta)
        after
        (IsReady r store runtime_laws cluster.binding members)
    × (◌≡◌ {A = ReconcileResult}
        (record { requeue_after = pos 60000000000 })
        (record { requeue_after = provider.spec.sync_interval }))
unfolding program
reconcile_cluster-IsReady_example =
    reconcile_cluster-IsReady (reconciler (ok members)) laws store keeps_role_bindings
      (answering-keeps _ _) keeps_bindings runtime_laws owns auditors cluster cluster
      cluster.binding provider (λ dn w. (ok members, w)) members
      (record { requeue_after = pos 60000000000 }) reads_stored (is_read _) refl refl refl
