-- ===== src/Controller/Binding/ReadBack.antt =====
-- internal/rbacsync and internal/controller: what Reconcile wrote, read back from the API server.
use mathlib.Core.List.{Perm}
use mathlib.Core.List.Perm
use mathlib.Core.List
use directory_rbac_operator.Base.{
  String, ◌≡◌, refl, sym, ap, ◌∙◌, subst, some-injective, List, [], ◌∷◌, Option, some, none, ◌==◌,
  ◌&&◌, if◌then◌else◌, arith, eq_refl,
}
use directory_rbac_operator.Go.Action.{ok}
use directory_rbac_operator.Kube.Objects.{Constants, ObjectKey, key_of, Subject, RoleBinding}
use directory_rbac_operator.Kube.Client.{ClientLaws}
use directory_rbac_operator.Api.{RbacGroupBinding, LdapProvider}
use directory_rbac_operator.Controller.Wanted.{user, users}
use directory_rbac_operator.Controller.Common.{Grouper, ReconcileResult}
use directory_rbac_operator.Controller.Laws.{KeepsView, ResolverKeeps, RuntimeLaws}
use directory_rbac_operator.Controller.Binding.Status.{RbacGroupBindingReconciler}
use directory_rbac_operator.Controller.Binding.InSync.{ReadsStored}
use directory_rbac_operator.Controller.Binding.Reconcile.{reconcile}
use directory_rbac_operator.Controller.Binding.Failsafe.{IsRead}
use directory_rbac_operator.Controller.Binding.Success.{reconcile-IsReady}

-- The user that a subject stands for, if it is one of the RBAC API.
unfoldable pub user_name : Constants → Subject → Option String
user_name k s =
    if s.kind == k.user_kind && s.api_group == k.group_name && s.namespace == ""
    then some s.name
    else none

-- The names of the users among subjects.
abbrev pub user_names : Constants → List Subject → List String
user_names k = List.filter_map (user_name k)

user_name-user : (k : Constants) (m : String) → user_name k (user k m) ≡ some m
unfolding user_name
user_name-user k m = ground (arith, eq_refl k.user_kind, eq_refl k.group_name)

user_names-users :
    (k : Constants) (members : List String) → user_names k (users k members) ≡ members
unfolding List.filter_map
user_names-users k [] = refl
user_names-users k (m ∷ members) =
    rw (user_name-user k m) (ap (λ l. m ∷ l) (user_names-users k members))

module _ {W E : Type 0} (r : RbacGroupBindingReconciler W E) (laws : ClientLaws r.client)
    (keeps : KeepsView r.runtime laws.role_bindings)
    (resolver : ResolverKeeps r.grouper laws.role_bindings)
    (keeps_bindings : KeepsView r.runtime laws.bindings) (rt : RuntimeLaws r.runtime) where
  open r use {client, grouper}
  open laws use {role_bindings}

  -- Whoever reads the RoleBinding of a binding after a successful Reconcile, and before another write, gets back as
  -- the names of the users of the RBAC API exactly the members that the directory gave, each as often and in some order, and the kind and name of
  -- the role that the binding names, provided that the client does not read a stale RoleBinding.
  pub reconcile-user_names :
      (req : ObjectKey) (w before later : W) (b : RbacGroupBinding) (p : LdapProvider)
      (g : Grouper W E) (members : List String) (a : ReconcileResult) (rb : RoleBinding)
      → ReadsStored r laws rt
      → IsRead r req w b p before
      → (grouper p before).0 ≡ ok g
      → (g b.spec.group_dn (grouper p before).1).0 ≡ ok members
      → (reconcile r req w).0 ≡ ok a
      → role_bindings later ≡ role_bindings (reconcile r req w).1
      → (client.get_role_binding (key_of b.meta) later).0 ≡ ok rb
      → Perm (user_names r.runtime.constants rb.subjects) members
        × (rb.role_ref.kind ≡ b.spec.role_ref.kind)
        × (rb.role_ref.name ≡ b.spec.role_ref.name)
  reconcile-user_names req w before later b p g members a rb reads read resolved answered done same
        got =
      let k = r.runtime.constants in
      let (granted, _, _) =
        reconcile-IsReady r laws keeps resolver keeps_bindings rt req w before b p g members a reads
          read resolved answered done in
      let is_stored = some-injective (
        sym (reads (key_of b.meta) later rb got)
        ∙ ap (λ v. v (key_of b.meta)) same
        ∙ granted.at_key) in
      let role = ap (λ (x : RoleBinding). x.role_ref) is_stored ∙ granted.has_role in
      (
        rw (user_names-users k members) at (
            subst
              (λ (x : RoleBinding). Perm (user_names k x.subjects) (user_names k (users k members)))
              (sym is_stored) (Perm.filter_map (user_name k) granted.has_subjects)),
        ap (λ x. x.kind) role,
        ap (λ x. x.name) role,
      )
