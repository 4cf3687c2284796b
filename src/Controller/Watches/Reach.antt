-- ===== src/Controller/Watches/Reach.antt =====
-- internal/controller/mappers.go: a change of a secret or a provider reaches exactly the bindings that depend on it.
use mathlib.Core.List.{Memᴰ}
use directory_rbac_operator.Base.{String, ◌≡◌, ◌↔◌, refl, sym, ◌∙◌, subst, List, [], ◌∷◌}
use directory_rbac_operator.Go.Action.{ok, ok-injective, Action}
use directory_rbac_operator.Kube.Objects.{ObjectKey, key_of}
use directory_rbac_operator.Kube.Client.{Client}
use directory_rbac_operator.Api.{LdapProvider, RbacGroupBinding}
use directory_rbac_operator.Controller.Watches.{
  WatchedObject, provider_object, map_provider_to_rbac_group_bindings, get_name, binding_index,
  cluster_binding_index, provider_index, providers_referencing_secret, listed_or_nil, requests_for,
  map_secret_to_rbac_group_bindings, map_secret_to_cluster_rbac_group_bindings,
}
use directory_rbac_operator.Controller.Watches.Indexes.{
  Lists, Reads, singleton_iff, provider_index_iff,
}
use directory_rbac_operator.Controller.Watches.Loop.{IsReached, requests_of_iff, requests_for_iff}

module _ {W E V : Type 0} (c : Client W E) (cache : W → V)
    (providers : Lists cache provider_index c.list_providers_of) where
  -- An object that a change of the secret reaches: its provider, which is cached, reads the secret, and the listing of
  -- the objects with that provider succeeds.
  pub record DependsOn {B : Type 0} {index : B → List String} {list : String → Action W E (List B)}
      (lists : Lists cache index list) (key : B → ObjectKey) (ref : B → String) (v : V)
      (secret : String) (k : ObjectKey) : Type 0 where
    pub provider : LdapProvider
    pub object : B
    pub listed : List B
    pub is_known : Memᴰ provider (providers.items v)
    pub reads : Reads provider secret
    pub is_listed : lists.answer provider.meta.name v ≡ ok listed
    pub is_cached : Memᴰ object (lists.items v)
    pub refers : ref object ≡ provider.meta.name
    pub has_key : key object ≡ k

  module _ {B : Type 0} {index : B → List String} {list : String → Action W E (List B)}
      (lists : Lists cache index list) (key : B → ObjectKey) (ref : B → String)
      (by_ref : (b : B) → index b ≡ ref b ∷ []) where
    depends_iff :
        (v : V) (secret : String) (ps : List LdapProvider) (k : ObjectKey)
        → providers.answer secret v ≡ ok ps
        → IsReached cache index key list lists v ps k ↔ DependsOn lists key ref v secret k
    depends_iff v secret ps k q = (
      λ h.
          let (known, indexed) = (providers.listed_iff secret v ps q h.provider).0 h.among in
          record {
            provider = h.provider;
            object = h.object;
            listed = h.listed;
            is_known = known;
            reads = (provider_index_iff h.provider secret).0 indexed;
            is_listed = h.is_listed;
            is_cached = h.is_cached;
            refers =
                (singleton_iff _ _).0
                  (subst (λ l. Memᴰ h.provider.meta.name l) (by_ref h.object) h.is_indexed);
            has_key = h.has_key;
          },
      λ h. record {
        provider = h.provider;
        object = h.object;
        listed = h.listed;
        among =
            (providers.listed_iff secret v ps q h.provider).1
              (h.is_known, (provider_index_iff h.provider secret).1 h.reads);
        is_listed = h.is_listed;
        is_cached = h.is_cached;
        is_indexed =
            subst (λ l. Memᴰ h.provider.meta.name l) (sym (by_ref h.object))
              ((singleton_iff _ _).1 h.refers);
        has_key = h.has_key;
      },
    )

    loop_iff :
        (secret : String) (w : W) (ps : List LdapProvider) (k : ObjectKey)
        → providers.answer secret (cache w) ≡ ok ps
        → let (found, w') = providers_referencing_secret c secret w in
          Memᴰ k (requests_for key list found w').0 ↔ DependsOn lists key ref (cache w) secret k
    unfolding providers_referencing_secret listed_or_nil
    loop_iff secret w ps k q =
        let w' = (c.list_providers_of secret w).1 in
        let same = (providers.list-Keeps secret).keeps w in
        let (forth, back) = requests_for_iff cache index key list lists k ps w' in
        let (depends, reached) = depends_iff (cache w) secret ps k q in
        rw (providers.list-answer secret w ∙ q) (
          λ m. depends (subst (λ v. IsReached cache index key list lists v ps k) same (forth m)),
          λ h.
              back
                (subst (λ v. IsReached cache index key list lists v ps k) (sym same) (reached h)),
        )

  -- Where the providers of a changed secret can be listed, the mappers from a secret enqueue exactly the bindings,
  -- namespaced and cluster-wide, that refer to a provider which reads the secret as its bind password or its CA
  -- bundle, less those of a provider for which the bindings could not be listed.
  pub map_secret_iff :
      (bindings : Lists cache binding_index (λ name. c.list_bindings_of name 0))
      (cluster_bindings : Lists cache cluster_binding_index
        (λ name. c.list_cluster_bindings_of name 0))
      (obj : WatchedObject) (w : W) (ps : List LdapProvider) (k : ObjectKey)
      → providers.answer (get_name obj) (cache w) ≡ ok ps
      → (Memᴰ k (map_secret_to_rbac_group_bindings c obj w).0
          ↔ DependsOn bindings
              (λ b. key_of b.meta)
              (λ b. b.spec.provider_ref)
              (cache w)
              (get_name obj)
              k)
        × (Memᴰ k (map_secret_to_cluster_rbac_group_bindings c obj w).0
            ↔ DependsOn cluster_bindings
                (λ b. key_of b.meta)
                (λ b. b.spec.provider_ref)
                (cache w)
                (get_name obj)
                k)
  unfolding map_secret_to_rbac_group_bindings map_secret_to_cluster_rbac_group_bindings
      binding_index cluster_binding_index
  map_secret_iff bindings cluster_bindings obj w ps k q = (
    loop_iff bindings _ _ (λ b. refl) (get_name obj) w ps k q,
    loop_iff cluster_bindings _ _ (λ b. refl) (get_name obj) w ps k q,
  )

module _ {W E V : Type 0} (c : Client W E) (cache : W → V)
    (bindings : Lists cache binding_index (λ name. c.list_bindings_of name 0)) where
  -- Where the bindings of a changed provider can be listed, its mapper enqueues exactly those that refer to it.
  pub map_provider_iff :
      (p : LdapProvider) (w : W) (listed : List RbacGroupBinding) (k : ObjectKey)
      → bindings.answer p.meta.name (cache w) ≡ ok listed
      → Memᴰ k (map_provider_to_rbac_group_bindings c (provider_object p) w).0 ↔ (
          (b : RbacGroupBinding) × Memᴰ b (bindings.items (cache w))
          × (b.spec.provider_ref ≡ p.meta.name)
          × (key_of b.meta ≡ k))
  unfolding map_provider_to_rbac_group_bindings binding_index
  map_provider_iff p w listed k q =
      let answered = bindings.list-answer p.meta.name w ∙ q in
      let listed_iff = bindings.listed_iff p.meta.name (cache w) listed q in
      let (forth, back) =
        requests_of_iff cache binding_index (λ b. key_of b.meta) (λ name. c.list_bindings_of name 0)
          bindings k (c.list_bindings_of p.meta.name 0 w).0 in
      (
        λ m.
            let (listed', q', b, at, is_k) = forth m in
            let (cached, indexed) =
              (listed_iff b).0 (subst (λ l. Memᴰ b l) (ok-injective (sym q' ∙ answered)) at) in
            (b, cached, (singleton_iff _ _).0 indexed, is_k),
        λ (b, cached, refers, is_k).
            back
              (listed, answered, b, (listed_iff b).1 (cached, (singleton_iff _ _).1 refers), is_k),
      )
