-- ===== src/Controller/Binding/Refines.antt =====
-- Reconcile implements the access that a binding promises.

use mathlib.Core.Quot.{Quot}
use directory_rbac_operator.Base.{String, ◌≡◌, ◌⊎◌, inl, inr, refl, sym, ap, ◌∙◌, subst, List}
use directory_rbac_operator.Go.Errors.{GoError}
use directory_rbac_operator.Go.Action.{
  Result, ok, err, Result-cases, of_result, try, ◌>>=◌, with_error, and_then,
}
use directory_rbac_operator.Go.Action.Keeps.{Keeps, >>-Keeps}
use directory_rbac_operator.Kube.Objects.{ObjectKey, key_of, RoleBinding}
use directory_rbac_operator.Kube.Client.{ClientLaws, AtomicWrites}
use directory_rbac_operator.Api.{RbacGroupBinding, LdapProvider}
use directory_rbac_operator.Rbacsync.{subjects, build_role_binding}
use directory_rbac_operator.Controller.Common.{SyncOutcome}
use directory_rbac_operator.Controller.Laws.{KeepsView, ResolverKeeps, RuntimeLaws}
use directory_rbac_operator.Controller.Binding.Status.{RbacGroupBindingReconciler}
use directory_rbac_operator.Controller.Binding.Sync.{reconcile_role_binding}
use directory_rbac_operator.Controller.Binding.Reconcile.{
  on_outcome, apply_members, on_members, on_grouper, reconcile,
}
use directory_rbac_operator.Controller.Binding.InSync.{ReadsStored}
use directory_rbac_operator.Controller.Wanted.{users, named_role}
use directory_rbac_operator.Controller.Binding.Frame.{
  HasResolved, provider_key, mark_degraded-Keeps, mark_ready-Keeps, reconcile-role_bindings,
}
use directory_rbac_operator.Controller.Binding.Failsafe.{IsRead, IsRead-keeps, reconcile_resolving}
use directory_rbac_operator.Controller.Binding.Success.{report-Keeps}
use directory_rbac_operator.Controller.Binding.Access.{Grant, AccessStep, access, grant_of}
use directory_rbac_operator.Controller.Binding.Steps.{SyncStep, reconcile_role_binding-SyncStep}

module _ {W E : Type 0} (r : RbacGroupBindingReconciler W E) (laws : ClientLaws r.client)
    (atomic : AtomicWrites r.client laws.role_bindings)
    (keeps : KeepsView r.runtime laws.role_bindings)
    (resolver : ResolverKeeps r.grouper laws.role_bindings)
    (keeps_bindings : KeepsView r.runtime laws.bindings) (rt : RuntimeLaws r.runtime) where
  open r use {client, runtime, grouper}
  open laws use {role_bindings}
  open runtime use {constants}

  -- What a binding asks for, given the members of its group: the role that it names, for users with these names.
  abbrev pub wanted_grant : RbacGroupBinding → List String → Grant
  wanted_grant b members = record {
    role = named_role constants b;
    holders = Quot.mk (users constants members);
  }

  -- The step of a binding from one world to the next.
  abbrev pub Steps : RbacGroupBinding → List String → W → W → Type 0
  Steps b members w w' =
      AccessStep (key_of b.meta) (wanted_grant b members) (access (role_bindings w))
        (access (role_bindings w'))

  on_outcome-Keeps :
      (b : RbacGroupBinding) (p : LdapProvider) (members : List String) (desired : RoleBinding)
      (found : Result (GoError E) SyncOutcome)
      → Keeps role_bindings (on_outcome r b p members desired found)
  unfolding on_outcome
  on_outcome-Keeps b p members desired (err e) = mark_degraded-Keeps r laws keeps resolver b e
  on_outcome-Keeps b p members desired (ok o) =
      >>-Keeps _ _
        (report-Keeps r laws keeps resolver keeps_bindings rt b desired.meta.name members o)
        (mark_ready-Keeps r laws keeps resolver b members p.spec.sync_interval)

  owned-Steps :
      (b : RbacGroupBinding) (members : List String) (desired : RoleBinding) (w w' : W)
      → runtime.own_role_binding b (build_role_binding constants b members) ≡ ok desired
      → SyncStep r laws atomic desired w w'
      → Steps b members w w'
  unfolding build_role_binding subjects
  owned-Steps b members desired w w' owned step =
      let (same_subjects, same_role, same_key) = rt.own_role_binding-content b _ desired owned in
      let want : grant_of desired ≡ wanted_grant b members = rw (same_role, same_subjects) refl in
      subst
        (λ g. AccessStep (key_of b.meta) g (access (role_bindings w)) (access (role_bindings w')))
        want
        (subst
          (λ k.
            AccessStep k (grant_of desired) (access (role_bindings w)) (access (role_bindings w')))
          same_key step)

  apply_members-Steps :
      (b : RbacGroupBinding) (p : LdapProvider) (members : List String) (w : W)
      → ReadsStored r laws rt
      → Steps b members w (apply_members r b p members w).1
  unfolding apply_members of_result ◌>>=◌ and_then try with_error
  apply_members-Steps b p members w reads =
      elim (Result-cases (runtime.own_role_binding b (build_role_binding constants b members))) [
        | inl (desired, q) ↦
            let sync = reconcile_role_binding r desired w in
            let step =
              owned-Steps b members desired w sync.1 q
                (reconcile_role_binding-SyncStep r laws atomic desired w reads) in
            let same = (on_outcome-Keeps b p members desired sync.0).keeps sync.1 in
            rw q (
              subst
                (λ v.
                  AccessStep (key_of b.meta) (wanted_grant b members) (access (role_bindings w))
                    (access v))
                (sym same) step)
        | inr (e, q) ↦ rw q (AccessStep.kept (λ k. refl))
      ]

  resolved-Steps :
      (req : ObjectKey) (w : W) (h : HasResolved r req w)
      → ReadsStored r laws rt
      → Steps h.binding h.has_members.members w (reconcile r req w).1
  unfolding on_grouper on_members ◌>>=◌ try
  resolved-Steps req w h reads =
      let b = h.binding in
      let p = h.provider in
      let members = h.has_members.members in
      let before = (r.client.get_provider (provider_key b) (r.client.get_binding req w).1).1 in
      let read : IsRead r req w b p before = record {
        binding_found = h.binding_found;
        provider_found = h.provider_found;
        then = refl;
      } in
      let g = h.has_members.get_group_members in
      let w' = (g b.spec.group_dn (grouper p before).1).1 in
      let at_members : on_grouper r b p (grouper p before).0 (grouper p before).1
          ≡ apply_members r b p members w' =
        rw (h.has_members.resolved, h.has_members.answered) in
      let same : role_bindings w' ≡ role_bindings w =
        (resolver.grouper-Keeps p before g b.spec.group_dn h.has_members.resolved).keeps
          (grouper p before).1
        ∙ (resolver.resolver-Keeps p).keeps before
        ∙ IsRead-keeps r laws keeps resolver keeps_bindings rt req w before b p read in
      let path =
        ap (λ m. role_bindings m.1) (reconcile_resolving r req w before b p read)
        ∙ keeps.observe-keeps _ _
        ∙ ap (λ m. role_bindings m.1) at_members in
      let key = key_of b.meta in
      let want = wanted_grant b members in
      subst (λ v. AccessStep key want (access (role_bindings w)) (access v)) (sym path)
        (subst
          (λ v.
            AccessStep key want (access v)
              (access (role_bindings (apply_members r b p members w').1)))
          same (apply_members-Steps b p members w' reads))

  -- Seen as who holds which role under which name, with the order of subjects forgotten, every run of Reconcile is one
  -- step of the access that the binding promises, whatever fails on the way: all stays as it was, or the members
  -- that the directory gave get exactly the binding's role, or, where another role was granted before, that grant is
  -- gone; under all other names nothing changes. Reads answer with what is stored, and writes are atomic.
  pub reconcile-AccessStep :
      (req : ObjectKey) (w : W)
      → ReadsStored r laws rt
      → let after = (reconcile r req w).1 in
        (access (role_bindings after) ≡ access (role_bindings w))
        ⊎ ((h : HasResolved r req w) × AccessStep
              (key_of h.binding.meta)
              (wanted_grant h.binding h.has_members.members)
              (access (role_bindings w))
              (access (role_bindings after)))
  reconcile-AccessStep req w reads = elim (reconcile-role_bindings r laws keeps resolver req w) [
    | inl same ↦ inl (ap access same)
    | inr h ↦ inr (h, resolved-Steps req w h reads)
  ]
