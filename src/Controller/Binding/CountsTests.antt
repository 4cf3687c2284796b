-- ===== src/Controller/Binding/CountsTests.antt =====
-- The metrics of a first run on the small cluster.
use directory_rbac_operator.Base.{arith, ◌≡◌, ◌⊎◌, sym, refl, List, ◌∷◌, ◌++◌}
use directory_rbac_operator.Go.Action.{ok, err, ok-injective}
use directory_rbac_operator.Metrics.{Metric, sync_duration}
use directory_rbac_operator.Api.{RbacGroupBinding}
use directory_rbac_operator.Controller.Sample.{ApiError, client}
use directory_rbac_operator.Controller.Sample.Laws.{same, found-keeps}
use directory_rbac_operator.Controller.Binding.Status.{rbac_group_binding_kind}
use directory_rbac_operator.Controller.Binding.Reconcile.{reconcile}
use directory_rbac_operator.Controller.Binding.Tests.{reconciler, members, binding_key, empty}
use directory_rbac_operator.Controller.Binding.Counts.{Counting, Counted}
use directory_rbac_operator.Controller.Binding.Counts.Reconcile.{
  IsAnswerTo, StopsAt, reconcile-metrics,
}

counting : Counting (reconciler (ok members)) (λ w. w.metrics)
counting = record {
  observe-adds = λ m w. refl;
  now-keeps = λ w. refl;
  set_status_condition-keeps = λ cs c w. refl;
  record_event-keeps = λ e w. refl;
  get_binding-Keeps = λ key. same _ _ (λ w. found-keeps (λ w'. w'.metrics) (w.bindings key) w);
  get_provider-Keeps = λ key. same _ _ (λ w. found-keeps (λ w'. w'.metrics) (w.providers key) w);
  get_role_binding-Keeps = λ key. same _ _ (λ w. ground arith);
  create_role_binding-Keeps = λ rb. same _ _ (λ w. ground arith);
  update_role_binding-Keeps = λ rb. same _ _ (λ w. refl);
  delete_role_binding-Keeps = λ rb. same _ _ (λ w. refl);
  update_binding_status-Keeps = λ b. same _ _ (λ w. refl);
  resolver = record {
    resolver-Keeps = λ p. same _ _ (λ w. refl);
    grouper-Keeps = λ p w g dn h. rw (sym (ok-injective h)) (record { keeps = λ w'. refl });
  };
}

reconcile-metrics_example :
    let r = reconciler (ok members) in
    let (res, after) = reconcile r binding_key empty in
    ((e : ApiError) × ((client.get_binding binding_key empty).0 ≡ err e)
      × (after.metrics ≡ sync_duration rbac_group_binding_kind ∷ empty.metrics))
    ⊎ ((b : RbacGroupBinding) × (counted : List Metric) × ((client.get_binding binding_key empty).0
          ≡ ok b)
        × (after.metrics ≡ sync_duration rbac_group_binding_kind ∷ counted ++ empty.metrics)
        × Counted b
            (IsAnswerTo r (λ w. w.metrics) counting binding_key empty b)
            (StopsAt r (λ w. w.metrics) counting binding_key empty b)
            res
            counted)
reconcile-metrics_example =
    reconcile-metrics (reconciler (ok members)) (λ w. w.metrics) counting binding_key empty
