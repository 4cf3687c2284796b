-- ===== src/Controller/Binding/Frame.antt =====
-- What Reconcile leaves alone: RoleBindings, until the members of the group are known.
use directory_rbac_operator.Base.{String, ◌≡◌, ◌⊎◌, inl, inr, refl, ◌∙◌, Bool-cases, List}
use directory_rbac_operator.Go.Errors.{GoError, foreign, foreign_test, is_group_not_found}
use directory_rbac_operator.Go.Action.{
  Result, ok, err, Result-cases, try, deferring, ◌>>=◌, call, with_error, with_error-ok, fail, pure,
}
use directory_rbac_operator.Go.Action.Keeps.{Keeps, keeps_rules}
use directory_rbac_operator.Kube.Objects.{ObjectKey, Duration}
use directory_rbac_operator.Kube.Client.{ClientLaws}
use directory_rbac_operator.Api.{RbacGroupBinding, LdapProvider}
use directory_rbac_operator.Controller.Common.{Grouper}
use directory_rbac_operator.Controller.Quiet.{set_conditions-keeps, record_warning-keeps}
use directory_rbac_operator.Controller.Laws.{KeepsView, ResolverKeeps}
use directory_rbac_operator.Controller.Binding.Status.{
  RbacGroupBindingReconciler, mark_ready, mark_degraded, mark_group_not_found,
}
use directory_rbac_operator.Controller.Binding.Reconcile.{
  on_members, on_grouper, on_provider, on_binding, reconcile,
}

-- The key of the provider that a binding names.
abbrev pub provider_key : RbacGroupBinding → ObjectKey
provider_key b = record { namespace = ""; name = b.spec.provider_ref }

-- The group's members were resolved: what each call answered, in the order of the calls.
pub record HasMembers {W E : Type 0} (dn : String) (found : Result (GoError E) (Grouper W E))
    (w : W) : Type 0 where
  pub get_group_members : Grouper W E
  pub resolved : found ≡ ok get_group_members
  pub members : List String
  pub answered : (get_group_members dn w).0 ≡ ok members

pub record HasResolved {W E : Type 0} (r : RbacGroupBindingReconciler W E) (req : ObjectKey) (w : W)
    : Type 0 where
  pub binding : RbacGroupBinding
  pub binding_found : (r.client.get_binding req w).0 ≡ ok binding
  pub provider : LdapProvider
  pub provider_found :
      (r.client.get_provider (provider_key binding) (r.client.get_binding req w).1).0 ≡ ok provider
  pub has_members :
      let w' = (r.client.get_provider (provider_key binding) (r.client.get_binding req w).1).1 in
      HasMembers binding.spec.group_dn (r.grouper provider w').0 (r.grouper provider w').1

module _ {W E : Type 0} (r : RbacGroupBindingReconciler W E) (laws : ClientLaws r.client)
    (keeps : KeepsView r.runtime laws.role_bindings)
    (resolver : ResolverKeeps r.grouper laws.role_bindings) where
  open r use {runtime}
  open laws use {role_bindings, update_binding_status-keeps}
  open keeps use {now-keeps, set_status_condition-keeps, record_event-keeps, observe-keeps}

  pub mark_degraded-Keeps :
      (b : RbacGroupBinding) (cause : GoError E) → Keeps role_bindings (mark_degraded r b cause)
  unfolding mark_degraded
  mark_degraded-Keeps b cause =
      search
        (
          keeps_rules,
          set_conditions-keeps keeps,
          record_warning-keeps keeps,
          observe-keeps,
          update_binding_status-keeps,
        )
        depth 9

  pub mark_ready-Keeps :
      (b : RbacGroupBinding) (members : List String) (interval : Duration)
      → Keeps role_bindings (mark_ready r b members interval)
  unfolding mark_ready
  mark_ready-Keeps b members interval =
      search
        (
          keeps_rules,
          set_conditions-keeps keeps,
          now-keeps,
          observe-keeps,
          update_binding_status-keeps,
        )
        depth 12

  pub mark_group_not_found-Keeps :
      (b : RbacGroupBinding) (interval : Duration)
      → Keeps role_bindings (mark_group_not_found r b interval)
  unfolding mark_group_not_found
  mark_group_not_found-Keeps b interval =
      search
        (
          keeps_rules,
          set_conditions-keeps keeps,
          record_warning-keeps keeps,
          observe-keeps,
          update_binding_status-keeps,
        )
        depth 9

  on_members-Keeps :
      (b : RbacGroupBinding) (p : LdapProvider) (e : GoError E)
      → Keeps role_bindings (on_members r b p (err e))
  unfolding on_members
  on_members-Keeps b p e = elim (Bool-cases (is_group_not_found e)) [
    | inl h ↦ rw h (mark_group_not_found-Keeps b p.spec.sync_interval)
    | inr h ↦ rw h (mark_degraded-Keeps b e)
  ]

  on_grouper-Keeps :
      (b : RbacGroupBinding) (p : LdapProvider) (found : Result (GoError E) (Grouper W E)) (w : W)
      → ((g : Grouper W E) → found ≡ ok g → Keeps role_bindings (g b.spec.group_dn))
      → (role_bindings (on_grouper r b p found w).1 ≡ role_bindings w)
        ⊎ HasMembers b.spec.group_dn found w
  unfolding on_grouper ◌>>=◌ try
  on_grouper-Keeps b p (err e) w h = inl ((mark_degraded-Keeps b e).keeps w)
  on_grouper-Keeps b p (ok g) w h = elim (Result-cases (g b.spec.group_dn w).0) [
    | inl (members, q) ↦
        inr (record { get_group_members = g; resolved = refl; members = members; answered = q })
    | inr (e, q) ↦
        inl (rw q ((on_members-Keeps b p e).keeps (g b.spec.group_dn w).1 ∙ (h g refl).keeps w))
  ]

  on_provider-keeps :
      (b : RbacGroupBinding) (found : Result (GoError E) LdapProvider) (w : W)
      → (role_bindings (on_provider r b found w).1 ≡ role_bindings w)
        ⊎ ((p : LdapProvider) × (found ≡ ok p)
            × HasMembers b.spec.group_dn (r.grouper p w).0 (r.grouper p w).1)
  unfolding on_provider ◌>>=◌ try fail
  on_provider-keeps b (err e) w = elim (Bool-cases (foreign_test r.client.is_not_found e)) [
    | inl h ↦ inl (rw h ((mark_degraded-Keeps b _).keeps w))
    | inr h ↦ inl (rw h)
  ]
  on_provider-keeps b (ok p) w =
      elim (on_grouper-Keeps b p (r.grouper p w).0 (r.grouper p w).1
        (λ g q. resolver.grouper-Keeps p w g b.spec.group_dn q)) [
          | inl same ↦ inl (same ∙ (resolver.resolver-Keeps p).keeps w)
          | inr has ↦ inr (p, refl, has)
        ]

  on_binding-keeps :
      (found : Result (GoError E) RbacGroupBinding) (w : W)
      → (role_bindings (on_binding r found w).1 ≡ role_bindings w)
        ⊎ ((b : RbacGroupBinding) × (p : LdapProvider) × (found ≡ ok b)
            × ((r.client.get_provider (provider_key b) w).0 ≡ ok p)
            × (let w' = (r.client.get_provider (provider_key b) w).1 in
                HasMembers b.spec.group_dn (r.grouper p w').0 (r.grouper p w').1))
  unfolding on_binding ◌>>=◌ try call with_error fail pure
  on_binding-keeps (err e) w = elim (Bool-cases (foreign_test r.client.is_not_found e)) [
    | inl h ↦ inl (rw h)
    | inr h ↦ inl (rw h)
  ]
  on_binding-keeps (ok b) w =
      elim (on_provider-keeps b (with_error foreign (r.client.get_provider (provider_key b) w).0)
        _) [
          | inl same ↦ inl (same ∙ (laws.get_provider-keeps (provider_key b)).keeps w)
          | inr (p, q, has) ↦ inr (b, p, refl, with_error-ok foreign _ q, has)
        ]

  -- RoleBindings change only after the binding and its provider were read and the directory has
  -- answered with the members of the group. On every other path of Reconcile, an unreachable
  -- directory and an unknown group among them, each is as it was before.
  pub reconcile-role_bindings :
      (req : ObjectKey) (w : W)
      → (role_bindings (reconcile r req w).1 ≡ role_bindings w) ⊎ HasResolved r req w
  unfolding reconcile ◌>>=◌ try call deferring
  reconcile-role_bindings req w =
      elim (on_binding-keeps (with_error foreign (r.client.get_binding req w).0) _) [
        | inl same ↦ inl (observe-keeps _ _ ∙ same ∙ (laws.get_binding-keeps req).keeps w)
        | inr (b, p, q, found, has) ↦ inr (record {
          binding = b;
          binding_found = with_error-ok foreign _ q;
          provider = p;
          provider_found = found;
          has_members = has;
        })
      ]
