-- ===== src/Controller/ClusterBinding/Frame.antt =====
-- What Reconcile leaves alone: ClusterRoleBindings, until the members of the group are known.
use directory_rbac_operator.Base.{String, ◌≡◌, ◌⊎◌, inl, inr, refl, ◌∙◌, Bool-cases, List}
use directory_rbac_operator.Go.Errors.{GoError, foreign, foreign_test, is_group_not_found}
use directory_rbac_operator.Go.Action.{
  Result, ok, err, Result-cases, try, deferring, ◌>>=◌, call, with_error, with_error-ok, fail, pure,
}
use directory_rbac_operator.Go.Action.Keeps.{Keeps, keeps_rules}
use directory_rbac_operator.Kube.Objects.{ObjectKey, Duration}
use directory_rbac_operator.Kube.Client.{ClusterClientKeeps}
use directory_rbac_operator.Api.{ClusterRbacGroupBinding, LdapProvider}
use directory_rbac_operator.Controller.Common.{Grouper}
use directory_rbac_operator.Controller.Quiet.{set_conditions-keeps, record_warning-keeps}
use directory_rbac_operator.Controller.Laws.{KeepsView, ResolverKeeps}
use directory_rbac_operator.Controller.Binding.Frame.{HasMembers}
use directory_rbac_operator.Controller.ClusterBinding.Status.{
  ClusterRbacGroupBindingReconciler, mark_ready, mark_degraded, mark_group_not_found,
}
use directory_rbac_operator.Controller.ClusterBinding.Reconcile.{
  on_members, on_grouper, on_provider, on_binding, reconcile,
}

-- The key of the provider that a binding names.
abbrev pub provider_key : ClusterRbacGroupBinding → ObjectKey
provider_key b = record { namespace = ""; name = b.spec.provider_ref }

-- What Reconcile has read before it changes anything.
pub record HasResolved {W E : Type 0} (r : ClusterRbacGroupBindingReconciler W E) (req : ObjectKey)
    (w : W) : Type 0 where
  pub binding : ClusterRbacGroupBinding
  pub binding_found : (r.client.get_cluster_binding req w).0 ≡ ok binding
  pub provider : LdapProvider
  pub provider_found :
      (r.client.get_provider (provider_key binding) (r.client.get_cluster_binding req w).1).0
      ≡ ok provider
  pub has_members :
      let w' =
        (r.client.get_provider (provider_key binding) (r.client.get_cluster_binding req w).1).1 in
      HasMembers binding.spec.group_dn (r.grouper provider w').0 (r.grouper provider w').1

module _ {W E V : Type 0} (r : ClusterRbacGroupBindingReconciler W E) (view : W → V)
    (keeps : KeepsView r.runtime view)
    (status-Keeps : (b : ClusterRbacGroupBinding)
      → Keeps view (r.client.update_cluster_binding_status b)) where
  open keeps use {now-keeps, observe-keeps}

  pub mark_degraded-Keeps :
      (b : ClusterRbacGroupBinding) (cause : GoError E) → Keeps view (mark_degraded r b cause)
  unfolding mark_degraded
  mark_degraded-Keeps b cause =
      search
        (
          keeps_rules,
          set_conditions-keeps keeps,
          record_warning-keeps keeps,
          observe-keeps,
          status-Keeps,
        )
        depth 9

  pub mark_ready-Keeps :
      (b : ClusterRbacGroupBinding) (members : List String) (interval : Duration)
      → Keeps view (mark_ready r b members interval)
  unfolding mark_ready
  mark_ready-Keeps b members interval =
      search (keeps_rules, set_conditions-keeps keeps, now-keeps, observe-keeps, status-Keeps) depth
        12

  pub mark_group_not_found-Keeps :
      (b : ClusterRbacGroupBinding) (interval : Duration)
      → Keeps view (mark_group_not_found r b interval)
  unfolding mark_group_not_found
  mark_group_not_found-Keeps b interval =
      search
        (
          keeps_rules,
          set_conditions-keeps keeps,
          record_warning-keeps keeps,
          observe-keeps,
          status-Keeps,
        )
        depth 9

module _ {W E : Type 0} (r : ClusterRbacGroupBindingReconciler W E)
    (laws : ClusterClientKeeps r.client) (keeps : KeepsView r.runtime laws.cluster_role_bindings)
    (resolver : ResolverKeeps r.grouper laws.cluster_role_bindings) where
  open r use {runtime}
  open laws use {cluster_role_bindings, update_cluster_binding_status-keeps}
  open keeps use {observe-keeps}

  on_members-Keeps :
      (b : ClusterRbacGroupBinding) (p : LdapProvider) (e : GoError E)
      → Keeps cluster_role_bindings (on_members r b p (err e))
  unfolding on_members
  on_members-Keeps b p e = elim (Bool-cases (is_group_not_found e)) [
    | inl h ↦ rw h (
        mark_group_not_found-Keeps r cluster_role_bindings keeps update_cluster_binding_status-keeps
          b p.spec.sync_interval)
    | inr h ↦
        rw h (
          mark_degraded-Keeps r cluster_role_bindings keeps update_cluster_binding_status-keeps b e)
  ]

  on_grouper-Keeps :
      (b : ClusterRbacGroupBinding) (p : LdapProvider) (found : Result (GoError E) (Grouper W E))
      (w : W)
      → ((g : Grouper W E) → found ≡ ok g → Keeps cluster_role_bindings (g b.spec.group_dn))
      → (cluster_role_bindings (on_grouper r b p found w).1 ≡ cluster_role_bindings w)
        ⊎ HasMembers b.spec.group_dn found w
  unfolding on_grouper ◌>>=◌ try
  on_grouper-Keeps b p (err e) w h = inl (
      (mark_degraded-Keeps r cluster_role_bindings keeps update_cluster_binding_status-keeps b
          e).keeps
        w)
  on_grouper-Keeps b p (ok g) w h = elim (Result-cases (g b.spec.group_dn w).0) [
    | inl (members, q) ↦
        inr (record { get_group_members = g; resolved = refl; members = members; answered = q })
    | inr (e, q) ↦
        inl (rw q ((on_members-Keeps b p e).keeps (g b.spec.group_dn w).1 ∙ (h g refl).keeps w))
  ]

  on_provider-keeps :
      (b : ClusterRbacGroupBinding) (found : Result (GoError E) LdapProvider) (w : W)
      → (cluster_role_bindings (on_provider r b found w).1 ≡ cluster_role_bindings w)
        ⊎ ((p : LdapProvider) × (found ≡ ok p)
            × HasMembers b.spec.group_dn (r.grouper p w).0 (r.grouper p w).1)
  unfolding on_provider ◌>>=◌ try fail
  on_provider-keeps b (err e) w = elim (Bool-cases (foreign_test r.client.is_not_found e)) [
    | inl h ↦ inl (
        rw h (
          (mark_degraded-Keeps r cluster_role_bindings keeps update_cluster_binding_status-keeps b
              _).keeps
            w))
    | inr h ↦ inl (rw h)
  ]
  on_provider-keeps b (ok p) w =
      elim (on_grouper-Keeps b p (r.grouper p w).0 (r.grouper p w).1
        (λ g q. resolver.grouper-Keeps p w g b.spec.group_dn q)) [
          | inl same ↦ inl (same ∙ (resolver.resolver-Keeps p).keeps w)
          | inr has ↦ inr (p, refl, has)
        ]

  on_binding-keeps :
      (found : Result (GoError E) ClusterRbacGroupBinding) (w : W)
      → (cluster_role_bindings (on_binding r found w).1 ≡ cluster_role_bindings w)
        ⊎ ((b : ClusterRbacGroupBinding) × (p : LdapProvider) × (found ≡ ok b)
            × ((r.client.get_provider (provider_key b) w).0 ≡ ok p)
            × (let w' = (r.client.get_provider (provider_key b) w).1 in
                HasMembers b.spec.group_dn (r.grouper p w').0 (r.grouper p w').1))
  unfolding on_binding ◌>>=◌ try call with_error fail pure
  on_binding-keeps (err e) w = elim (Bool-cases (foreign_test r.client.is_not_found e)) [
    | inl h ↦ inl (rw h)
    | inr h ↦ inl (rw h)
  ]
  on_binding-keeps (ok b) w =
      elim (on_provider-keeps b (with_error foreign (r.client.get_provider (provider_key b) w).0)
        _) [
          | inl same ↦ inl (same ∙ (laws.get_provider-keeps (provider_key b)).keeps w)
          | inr (p, q, has) ↦ inr (b, p, refl, with_error-ok foreign _ q, has)
        ]

  -- ClusterRoleBindings change only after the binding and its provider were read and the directory has
  -- answered with the members of the group. On every other path of Reconcile, an unreachable
  -- directory and an unknown group among them, each is as it was before.
  pub reconcile-cluster_role_bindings :
      (req : ObjectKey) (w : W)
      → (cluster_role_bindings (reconcile r req w).1 ≡ cluster_role_bindings w)
        ⊎ HasResolved r req w
  unfolding reconcile ◌>>=◌ try call deferring
  reconcile-cluster_role_bindings req w =
      elim (on_binding-keeps (with_error foreign (r.client.get_cluster_binding req w).0) _) [
        | inl same ↦ inl (observe-keeps _ _ ∙ same ∙ (laws.get_cluster_binding-keeps req).keeps w)
        | inr (b, p, q, found, has) ↦ inr (record {
          binding = b;
          binding_found = with_error-ok foreign _ q;
          provider = p;
          provider_found = found;
          has_members = has;
        })
      ]
