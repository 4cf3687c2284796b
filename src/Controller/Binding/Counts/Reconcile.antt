-- ===== src/Controller/Binding/Counts/Reconcile.antt =====
-- internal/controller/rbacgroupbinding_controller.go: Reconcile, as to the metrics, path by path.
use directory_rbac_operator.Base.{
  String, ◌≡◌, ◌↔◌, subst, ap, sym, refl, ◌∙◌, false, Bool-cases, inl, inr, ◌⊎◌, List, ◌∷◌, ◌++◌,
}
use directory_rbac_operator.Go.Errors.{GoError, foreign, foreign_test, is_group_not_found}
use directory_rbac_operator.Go.Action.{
  Result, ok, err, ok≢err, ok-injective, err-injective, Result-cases, try, deferring, ◌>>=◌, call,
  with_error, with_error-ok, with_error-err, fail, pure, and_then, of_result, map_err,
}
use directory_rbac_operator.Go.Action.Keeps.{Keeps}
use directory_rbac_operator.Kube.Objects.{ObjectKey, RoleBinding}
use directory_rbac_operator.Metrics.{Metric, sync_duration}
use directory_rbac_operator.Api.{RbacGroupBinding, LdapProvider}
use directory_rbac_operator.Controller.Common.{Grouper, SyncOutcome}
use directory_rbac_operator.Rbacsync.{build_role_binding}
use directory_rbac_operator.Controller.Binding.Status.{
  RbacGroupBindingReconciler, rbac_group_binding_kind,
}
use directory_rbac_operator.Controller.Binding.Sync.{reconcile_role_binding}
use directory_rbac_operator.Controller.Binding.Reconcile.{
  on_outcome, apply_members, on_members, on_grouper, on_provider, on_binding, reconcile,
}
use directory_rbac_operator.Controller.Binding.Frame.{provider_key}
use directory_rbac_operator.Controller.Binding.Counts.{
  Answers, IsUntold, Counting, Counted, Counts, observed, mark_degraded-Counts,
  mark_group_not_found-Counts, mark_ready-Counts, stopped-Counts, Counts-since, passing-Counts,
}
use directory_rbac_operator.Controller.Binding.Counts.Sync.{
  report-Keeps, report-succeeds, reconcile_role_binding-Keeps,
}

module _ {W E : Type 0} (r : RbacGroupBindingReconciler W E) (log : W → List Metric)
    (counting : Counting r log) where
  open r use {client, runtime, grouper}
  open counting use {get_binding-Keeps, get_provider-Keeps, resolver}

  -- The owner reference of the RoleBinding for the members is refused with this error.
  abbrev IsRefused : RbacGroupBinding → List String → GoError E → Type 0
  IsRefused b members e =
      with_error foreign
        (runtime.own_role_binding b (build_role_binding runtime.constants b members))
      ≡ err e

  -- Those errors end a run that counts nothing.
  abbrev RefusalStops : RbacGroupBinding → Answers E → (GoError E → Type 0) → Type 0
  RefusalStops b IsAnswer Stops =
      (members : List String)
      → IsAnswer (ok members)
      → (e : GoError E) → IsRefused b members e
      → Stops e

  on_outcome-Counts :
      (b : RbacGroupBinding) (p : LdapProvider) (IsAnswer : Answers E) (Stops : GoError E → Type 0)
      (members : List String) (desired : RoleBinding) (found : Result (GoError E) SyncOutcome)
      (w : W)
      → IsAnswer (ok members)
      → IsUntold IsAnswer
      → Counts log b IsAnswer Stops (log w) (on_outcome r b p members desired found w)
  unfolding on_outcome
  on_outcome-Counts b p IsAnswer Stops members desired (err e) w answer untold =
      mark_degraded-Counts r log counting b IsAnswer Stops e w untold
  on_outcome-Counts b p IsAnswer Stops members desired (ok o) w answer untold =
      passing-Counts r log counting _ _ w
        (report-Keeps r log counting b desired.meta.name members o)
        (report-succeeds r log counting b desired.meta.name members o w)
        (λ v.
          mark_ready-Counts r log counting b IsAnswer Stops members p.spec.sync_interval v answer)

  -- The owner reference may be refused, and then nothing is counted.
  owned-Counts :
      (b : RbacGroupBinding) (p : LdapProvider) (IsAnswer : Answers E) (Stops : GoError E → Type 0)
      (members : List String) (owned : Result (GoError E) RoleBinding) (w : W)
      → IsAnswer (ok members)
      → IsUntold IsAnswer
      → ((e : GoError E) → owned ≡ err e → Stops e)
      → Counts log b IsAnswer Stops (log w) (
          and_then owned
            (λ desired. do
              outcome ← try (reconcile_role_binding r desired)
              on_outcome r b p members desired outcome)
            w)
  unfolding and_then ◌>>=◌ try
  owned-Counts b p IsAnswer Stops members (err e) w answer untold refused =
      stopped-Counts r log counting b IsAnswer Stops e w untold (refused e refl)
  owned-Counts b p IsAnswer Stops members (ok desired) w answer untold refused =
      Counts-since r log counting ((reconcile_role_binding-Keeps r log counting desired).keeps w)
        (on_outcome-Counts b p IsAnswer Stops members desired _ _ answer untold)

  apply_members-Counts :
      (b : RbacGroupBinding) (p : LdapProvider) (IsAnswer : Answers E) (Stops : GoError E → Type 0)
      (members : List String) (w : W)
      → IsAnswer (ok members)
      → IsUntold IsAnswer
      → ((e : GoError E) → IsRefused b members e → Stops e)
      → Counts log b IsAnswer Stops (log w) (apply_members r b p members w)
  unfolding apply_members ◌>>=◌ of_result
  apply_members-Counts b p IsAnswer Stops members w answer untold refused =
      owned-Counts b p IsAnswer Stops members _ w answer untold refused

  on_members-Counts :
      (b : RbacGroupBinding) (p : LdapProvider) (IsAnswer : Answers E) (Stops : GoError E → Type 0)
      (found : Result (GoError E) (List String)) (w : W)
      → IsAnswer found
      → ((other : Result (GoError E) (List String)) → IsAnswer other → found ≡ other)
      → RefusalStops b IsAnswer Stops
      → Counts log b IsAnswer Stops (log w) (on_members r b p found w)
  unfolding on_members
  on_members-Counts b p IsAnswer Stops (ok members) w answer only refused =
      apply_members-Counts b p IsAnswer Stops members w answer
        (λ x told. absurd (ok≢err (only (err x) told))) (refused members answer)
  on_members-Counts b p IsAnswer Stops (err e) w answer only refused =
      elim (Bool-cases (is_group_not_found e)) [
        | inl h ↦ rw h (
            mark_group_not_found-Counts r log counting b IsAnswer Stops e p.spec.sync_interval w
              answer h)
        | inr h ↦ rw h (
            mark_degraded-Counts r log counting b IsAnswer Stops e w
              (λ x told. rw (sym (err-injective (only (err x) told))) h))
      ]

  -- What the directory answers where a grouper was found.
  abbrev GrouperAnswer : String → Result (GoError E) (Grouper W E) → W → Answers E
  GrouperAnswer dn found w answer = (g : Grouper W E) × (found ≡ ok g) × ((g dn w).0 ≡ answer)

  on_grouper-Counts :
      (b : RbacGroupBinding) (p : LdapProvider) (IsAnswer : Answers E) (Stops : GoError E → Type 0)
      (found : Result (GoError E) (Grouper W E)) (w : W)
      → ((g : Grouper W E) → found ≡ ok g → Keeps log (g b.spec.group_dn))
      → ((answer : Result (GoError E) (List String))
          → IsAnswer answer ↔ GrouperAnswer b.spec.group_dn found w answer)
      → RefusalStops b IsAnswer Stops
      → Counts log b IsAnswer Stops (log w) (on_grouper r b p found w)
  unfolding on_grouper ◌>>=◌ try
  on_grouper-Counts b p IsAnswer Stops (err e) w keeps answers refused =
      mark_degraded-Counts r log counting b IsAnswer Stops e w
        (λ x told. absurd (ok≢err (sym ((answers (err x)).0 told).1)))
  on_grouper-Counts b p IsAnswer Stops (ok g) w keeps answers refused =
      Counts-since r log counting ((keeps g refl).keeps w) (
        on_members-Counts b p IsAnswer Stops _ _ ((answers _).1 (g, refl, refl))
          (λ other told.
            let (g', same, answered) = (answers other).0 told in
            ap (λ k. (k b.spec.group_dn w).0) (ok-injective same) ∙ answered)
          refused)

  -- What the directory answers where a provider was found.
  abbrev ProviderAnswer : String → Result (GoError E) LdapProvider → W → Answers E
  ProviderAnswer dn found w answer =
      (p : LdapProvider) × (found ≡ ok p) × GrouperAnswer dn (grouper p w).0 (grouper p w).1 answer

  on_provider-Counts :
      (b : RbacGroupBinding) (IsAnswer : Answers E) (Stops : GoError E → Type 0)
      (found : Result (GoError E) LdapProvider) (w : W)
      → ((answer : Result (GoError E) (List String))
          → IsAnswer answer ↔ ProviderAnswer b.spec.group_dn found w answer)
      → ((e : GoError E) → found ≡ err e → foreign_test client.is_not_found e ≡ false → Stops e)
      → RefusalStops b IsAnswer Stops
      → Counts log b IsAnswer Stops (log w) (on_provider r b found w)
  unfolding on_provider ◌>>=◌ try fail
  on_provider-Counts b IsAnswer Stops (err e) w answers unread refused =
      let untold : IsUntold IsAnswer =
        λ x told. absurd (ok≢err (sym ((answers (err x)).0 told).1)) in
      elim (Bool-cases (foreign_test client.is_not_found e)) [
        | inl h ↦ rw h (mark_degraded-Counts r log counting b IsAnswer Stops _ w untold)
        | inr h ↦ rw h (stopped-Counts r log counting b IsAnswer Stops e w untold (unread e refl h))
      ]
  on_provider-Counts b IsAnswer Stops (ok p) w answers unread refused =
      Counts-since r log counting ((resolver.resolver-Keeps p).keeps w) (
        on_grouper-Counts b p IsAnswer Stops _ _
          (λ g q. resolver.grouper-Keeps p w g b.spec.group_dn q)
          (λ answer. (
            λ told.
                let (p', same, rest) = (answers answer).0 told in
                subst (λ q. GrouperAnswer b.spec.group_dn (grouper q w).0 (grouper q w).1 answer)
                  (sym (ok-injective same)) rest,
            λ rest. (answers answer).1 (p, refl, rest),
          ))
          refused)

  -- What the directory answers for a binding: its provider is read, a grouper is made for the provider, and the
  -- grouper is asked for the members of the group that the binding names.
  abbrev pub IsAnswerTo : ObjectKey → W → RbacGroupBinding → Answers E
  IsAnswerTo req w b answer =
      let (found, after) = client.get_provider (provider_key b) (client.get_binding req w).1 in
      (p : LdapProvider) × (found ≡ ok p)
      × GrouperAnswer b.spec.group_dn (grouper p after).0 (grouper p after).1 answer

  -- The errors that end a run which counts nothing: the provider could not be read, for another reason than that there
  -- is none, or the owner reference of the RoleBinding was refused.
  abbrev pub StopsAt : ObjectKey → W → RbacGroupBinding → GoError E → Type 0
  StopsAt req w b e =
      ((x : E) × ((client.get_provider (provider_key b) (client.get_binding req w).1).0 ≡ err x)
        × (client.is_not_found x ≡ false)
        × (e ≡ foreign x))
      ⊎ ((members : List String) × IsAnswerTo req w b (ok members) × IsRefused b members e)

  on_found-Counts :
      (req : ObjectKey) (w : W) (b : RbacGroupBinding)
      → Counts log b
          (IsAnswerTo req w b)
          (StopsAt req w b)
          (log w)
          (on_binding r (ok b) (client.get_binding req w).1)
  unfolding on_binding ◌>>=◌ try call map_err foreign_test
  on_found-Counts req w b =
      let w' = (client.get_binding req w).1 in
      Counts-since r log counting
        ((get_provider-Keeps (provider_key b)).keeps w' ∙ (get_binding-Keeps req).keeps w)
        (on_provider-Counts b (IsAnswerTo req w b) (StopsAt req w b) _ _
          (λ answer. (
            λ told. let (p, q, rest) = told in (p, ap (with_error foreign) q, rest),
            λ told. let (p, q, rest) = told in (p, with_error-ok foreign _ q, rest),
          ))
          (λ e q kept.
            let (x, failed, same) = with_error-err foreign _ q in
            inl (x, failed, sym (ap (foreign_test client.is_not_found) same) ∙ kept, same))
          (λ members answer e refused. inr (members, answer, refused)))

  -- A binding that could not be read counts nothing.
  on_missing-log : (e : GoError E) (w : W) → log (on_binding r (err e) w).1 ≡ log w
  unfolding on_binding pure fail
  on_missing-log e w = elim (Bool-cases (foreign_test client.is_not_found e)) [
    | inl h ↦ rw h refl
    | inr h ↦ rw h refl
  ]

  -- Where observing a metric adds it to the log, and no other call of Reconcile changes the log, Reconcile observes its
  -- own duration last, and before it counts at most one outcome. For a binding that could be read the outcome is ready only where the directory answered with members, and counts as many as it gave, and it is
  -- group_not_found exactly where the directory was asked for the group and answered that there is none. In the other
  -- runs Reconcile returns an error. Then no outcome is counted only where the provider could not be read, for another
  -- reason than that there is none, or the owner reference was refused, and else it is degraded, which is counted for
  -- the binding's provider too. For a binding that could not be read no outcome is counted.
  pub reconcile-metrics :
      (req : ObjectKey) (w : W)
      → let (res, after) = reconcile r req w in
        ((e : E) × ((client.get_binding req w).0 ≡ err e)
          × (log after ≡ sync_duration rbac_group_binding_kind ∷ log w))
        ⊎ ((b : RbacGroupBinding) × (counted : List Metric) × ((client.get_binding req w).0 ≡ ok b)
            × (log after ≡ sync_duration rbac_group_binding_kind ∷ counted ++ log w)
            × Counted b (IsAnswerTo req w b) (StopsAt req w b) res counted)
  unfolding reconcile ◌>>=◌ try call map_err deferring with_error
  reconcile-metrics req w = elim (Result-cases (client.get_binding req w).0) [
    | inl (b, q) ↦
        let c = on_found-Counts req w b in
        inr (b, c.counted, q, rw q (observed r log counting _ c.logged), rw q c.fits)
    | inr (e, q) ↦ inl (
      e,
      q,
      rw q (observed r log counting _ (on_missing-log _ _ ∙ (get_binding-Keeps req).keeps w)),
    )
  ]
