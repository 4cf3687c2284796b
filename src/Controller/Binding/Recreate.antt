-- ===== src/Controller/Binding/Recreate.antt =====
-- The one path on which a failed call takes existing access away.
use directory_rbac_operator.Base.{◌≡◌, ◌≢◌, refl, ap, ◌∙◌, arith, false, none}
use directory_rbac_operator.Go.Errors.{foreign}
use directory_rbac_operator.Go.Action.{ok, err, try, ◌>>=◌, ◌>>◌, call, with_error}
use directory_rbac_operator.Kube.Objects.{key_of, RbacRoleRef, RoleBinding}
use directory_rbac_operator.Kube.Client.{ClientLaws}
use directory_rbac_operator.Controller.Common.{same_role_ref}
use directory_rbac_operator.Controller.Binding.Status.{RbacGroupBindingReconciler}
use directory_rbac_operator.Controller.Binding.Sync.{sync_found, recreate, reconcile_role_binding}
use directory_rbac_operator.Controller.Binding.InSync.{same_role_ref_iff}

module _ {W E : Type 0} (r : RbacGroupBindingReconciler W E) (laws : ClientLaws r.client) where
  open r use {client}
  open laws use {role_bindings}

  not_same : (a b : RbacRoleRef) → a ≢ b → same_role_ref a b ≡ false
  not_same a b h = ground (arith, same_role_ref_iff a b)

  -- When the wanted role is another one and the Create that follows the Delete fails and changes nothing,
  -- reconcileRoleBinding returns the error and the RoleBinding that granted access is gone.
  pub recreate_loses :
      (desired existing : RoleBinding) (e : E) (w : W)
      → (client.get_role_binding (key_of desired.meta) w).0 ≡ ok existing
      → existing.role_ref ≢ desired.role_ref
      → let read = (client.get_role_binding (key_of desired.meta) w).1 in
        let deleted = (client.delete_role_binding existing read).1 in
        (client.delete_role_binding existing read).0 ≡ ok tt
        → (client.create_role_binding desired deleted).0 ≡ err e
        → role_bindings (client.create_role_binding desired deleted).1 ≡ role_bindings deleted
        → let (res, after) = reconcile_role_binding r desired w in
          (res ≡ err (foreign e)) × (role_bindings after (key_of desired.meta) ≡ none)
  unfolding reconcile_role_binding sync_found recreate ◌>>=◌ ◌>>◌ try call with_error
  recreate_loses desired existing e w got other deleted failed same =
      let read = (client.get_role_binding (key_of desired.meta) w).1 in
      let key = laws.get_role_binding-key (key_of desired.meta) w existing got in
      let gone = laws.delete_role_binding-gone existing read deleted in
      rw (got, not_same existing.role_ref desired.role_ref other, deleted, failed)
        (refl, ap (λ v. v (key_of desired.meta)) same ∙ (rw key at gone))
