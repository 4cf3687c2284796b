-- ===== src/Webhook/Decision.antt =====
-- internal/webhook: what the two validators decide on a listing that succeeded.
use mathlib.Core.List.{Mem}
use directory_rbac_operator.Base.{String, ◌≡◌, ◌↔◌, refl, sym, ap, ◌∙◌, List}
use directory_rbac_operator.Go.Action.{ok, Action, call, map_err, with_error, wrapping}
use directory_rbac_operator.Go.Action.Bind.{>>=-continues, wrapping-continues}
use directory_rbac_operator.Api.{RbacGroupBinding, ClusterRbacGroupBinding}
use directory_rbac_operator.Webhook.{
  binding_name, maps_same, duplicate_text, reject_duplicate, validate_update, cluster_binding_name,
  cluster_maps_same, cluster_duplicate_text, reject_cluster_duplicate, validate_cluster_update,
}
use directory_rbac_operator.Webhook.Check.{check_iff}
use directory_rbac_operator.Webhook.Conflict.{
  Compatible, ClusterCompatible, maps_same-MapsSame, cluster_maps_same-ClusterMapsSame,
}

module _ {W E : Type 0} (quote : String → String)
    (list : String → Action W E (List RbacGroupBinding)) where
  -- Where the bindings of the namespace are listed, the validator admits an update exactly when no listed binding of
  -- another name has the same groupDN and a role of the same kind and name; the binding's own old version never counts.
  pub validate_update_iff :
      (old b : RbacGroupBinding) (items : List RbacGroupBinding) (w : W)
      → (list b.meta.namespace w).0 ≡ ok items
      → ((validate_update quote list old b w).0 ≡ ok tt)
        ↔ ((x : RbacGroupBinding) → Mem x items → Compatible b x)
  unfolding validate_update reject_duplicate call map_err with_error wrapping
  validate_update_iff old b items w h =
      let listed = wrapping-continues _ _ (call (list b.meta.namespace)) w items (rw h refl) in
      let same = ap (λ p. p.0) (>>=-continues _ _ w items listed) in
      let (sound, complete) =
        check_iff binding_name maps_same (duplicate_text quote) E b items
          (list b.meta.namespace w).1 in
      (
        λ q x m ne. (maps_same-MapsSame x b).0 (sound (sym same ∙ q) x m ne),
        λ q. same ∙ complete (λ x m ne. (maps_same-MapsSame x b).1 (q x m ne)),
      )

module _ {W E : Type 0} (quote : String → String)
    (list : Action W E (List ClusterRbacGroupBinding)) where
  -- Where all cluster-wide bindings are listed, the validator admits an update exactly when no listed binding of
  -- another name has the same groupDN and the same cluster role.
  pub validate_cluster_update_iff :
      (old b : ClusterRbacGroupBinding) (items : List ClusterRbacGroupBinding) (w : W)
      → (list w).0 ≡ ok items
      → ((validate_cluster_update quote list old b w).0 ≡ ok tt)
        ↔ ((x : ClusterRbacGroupBinding) → Mem x items → ClusterCompatible b x)
  unfolding validate_cluster_update reject_cluster_duplicate call map_err with_error wrapping
  validate_cluster_update_iff old b items w h =
      let listed = wrapping-continues _ _ (call list) w items (rw h refl) in
      let same = ap (λ p. p.0) (>>=-continues _ _ w items listed) in
      let (sound, complete) =
        check_iff cluster_binding_name cluster_maps_same (cluster_duplicate_text quote) E b items
          (list w).1 in
      (
        λ q x m ne. (cluster_maps_same-ClusterMapsSame x b).0 (sound (sym same ∙ q) x m ne),
        λ q. same ∙ complete (λ x m ne. (cluster_maps_same-ClusterMapsSame x b).1 (q x m ne)),
      )
