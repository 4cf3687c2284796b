-- ===== src/Controller/ClusterBinding/Failsafe.antt =====
-- internal/controller/clusterrbacgroupbinding_controller.go: Reconcile when the directory does not give the members of
-- the group.
use directory_rbac_operator.Base.{◌≡◌, ◌⊎◌, inl, inr, sym, ap, ◌∙◌, true}
use directory_rbac_operator.Go.Errors.{GoError, is_group_not_found}
use directory_rbac_operator.Go.Action.{ok, err, try, deferring, ◌>>=◌, call, with_error}
use directory_rbac_operator.Kube.Objects.{ObjectKey, key_of}
use directory_rbac_operator.Kube.Client.{ClusterClientKeeps, ClusterBindingStore}
use directory_rbac_operator.Metrics.{sync_duration}
use directory_rbac_operator.Api.{ClusterRbacGroupBinding, LdapProvider}
use directory_rbac_operator.Controller.Common.{Grouper}
use directory_rbac_operator.Controller.Laws.{KeepsView, ResolverKeeps, RuntimeLaws}
use directory_rbac_operator.Controller.Stored.{Refused, HasStatus-later}
use directory_rbac_operator.Controller.ClusterBinding.Status.{
  ClusterRbacGroupBindingReconciler, cluster_rbac_group_binding_kind, mark_group_not_found,
}
use directory_rbac_operator.Controller.ClusterBinding.Reconcile.{
  on_members, on_grouper, on_provider, on_binding, reconcile,
}
use directory_rbac_operator.Controller.ClusterBinding.Frame.{
  provider_key, mark_group_not_found-Keeps,
}
use directory_rbac_operator.Controller.ClusterBinding.Outcome.{
  HasStatus, IsGroupNotFound, mark_group_not_found_lem,
}

-- The binding and its provider were read: `before` is the world in which the group is resolved.
pub record IsRead {W E : Type 0} (r : ClusterRbacGroupBindingReconciler W E) (req : ObjectKey)
    (w : W) (b : ClusterRbacGroupBinding) (p : LdapProvider) (before : W) : Type 0 where
  pub binding_found : (r.client.get_cluster_binding req w).0 ≡ ok b
  pub provider_found :
      (r.client.get_provider (provider_key b) (r.client.get_cluster_binding req w).1).0 ≡ ok p
  pub then :
      (r.client.get_provider (provider_key b) (r.client.get_cluster_binding req w).1).1 ≡ before

module _ {W E : Type 0} (r : ClusterRbacGroupBindingReconciler W E) where
  open r use {client, runtime, grouper}

  -- Up to the resolution of the group Reconcile only reads.
  pub reconcile_resolving :
      (req : ObjectKey) (w before : W) (b : ClusterRbacGroupBinding) (p : LdapProvider)
      → IsRead r req w b p before
      → let m = on_grouper r b p (grouper p before).0 (grouper p before).1 in
        reconcile r req w
        ≡ (m.0, runtime.observe (sync_duration cluster_rbac_group_binding_kind) m.1)
  unfolding reconcile on_binding on_provider ◌>>=◌ try call with_error deferring
  reconcile_resolving req w before b p h = rw (h.binding_found, h.provider_found, h.then)

  on_grouper_group_not_found :
      (b : ClusterRbacGroupBinding) (p : LdapProvider) (w : W) (e : GoError E) (g : Grouper W E)
      → (grouper p w).0 ≡ ok g
      → (g b.spec.group_dn (grouper p w).1).0 ≡ err e
      → is_group_not_found e ≡ true
      → on_grouper r b p (grouper p w).0 (grouper p w).1
        ≡ mark_group_not_found r b p.spec.sync_interval (g b.spec.group_dn (grouper p w).1).1
  unfolding on_grouper on_members ◌>>=◌ try
  on_grouper_group_not_found b p w e g q f h = rw (q, f, h)

module _ {W E : Type 0} (r : ClusterRbacGroupBindingReconciler W E)
    (laws : ClusterClientKeeps r.client) (store : ClusterBindingStore r.client)
    (keeps : KeepsView r.runtime laws.cluster_role_bindings)
    (resolver : ResolverKeeps r.grouper laws.cluster_role_bindings)
    (keeps_bindings : KeepsView r.runtime store.bindings) (rt : RuntimeLaws r.runtime) where
  open r use {client, runtime, grouper}
  open laws use {cluster_role_bindings}
  open store use {bindings}

  pub IsRead-keeps :
      (req : ObjectKey) (w before : W) (b : ClusterRbacGroupBinding) (p : LdapProvider)
      → IsRead r req w b p before
      → cluster_role_bindings before ≡ cluster_role_bindings w
  IsRead-keeps req w before b p h =
      ap cluster_role_bindings (sym h.then)
      ∙ (laws.get_provider-keeps (provider_key b)).keeps (client.get_cluster_binding req w).1
      ∙ (laws.get_cluster_binding-keeps req).keeps w

  -- When a binding and its provider were read and the directory does not have the group, Reconcile leaves every ClusterRoleBinding alone, asks for another check
  -- after the provider's sync interval, and stores a status that is GroupNotFound, not Ready and
  -- not Degraded and keeps the record of the last successful sync; or it returns the error
  -- with which the API server refused the status.
  pub reconcile_cluster-IsGroupNotFound :
      (req : ObjectKey) (w before : W) (b : ClusterRbacGroupBinding) (p : LdapProvider)
      (e : GoError E) (g : Grouper W E)
      → IsRead r req w b p before
      → (grouper p before).0 ≡ ok g
      → (g b.spec.group_dn (grouper p before).1).0 ≡ err e
      → is_group_not_found e ≡ true
      → let (res, after) = reconcile r req w in
        (cluster_role_bindings after ≡ cluster_role_bindings w)
        × (Refused res
            ⊎ ((res ≡ ok (record { requeue_after = p.spec.sync_interval }))
                × HasStatus r store (key_of b.meta) after (IsGroupNotFound r store rt b)))
  reconcile_cluster-IsGroupNotFound req w before b p e g read resolved failed absent =
      let w' = (g b.spec.group_dn (grouper p before).1).1 in
      rw
        (
          reconcile_resolving r req w before b p read,
          on_grouper_group_not_found r b p before e g resolved failed absent,
        )
        (
          keeps.observe-keeps _ _
              ∙ (mark_group_not_found-Keeps r cluster_role_bindings keeps
                    laws.update_cluster_binding_status-keeps b p.spec.sync_interval).keeps
                  w'
              ∙ (resolver.grouper-Keeps p before g b.spec.group_dn resolved).keeps
                  (grouper p before).1
              ∙ (resolver.resolver-Keeps p).keeps before
              ∙ IsRead-keeps req w before b p read,
          elim (mark_group_not_found_lem r store rt b p.spec.sync_interval w') [
            | inl refused ↦ inl refused
            | inr (q, status) ↦
                inr (q, HasStatus-later bindings _ (keeps_bindings.observe-keeps _ _) status)
          ],
        )
