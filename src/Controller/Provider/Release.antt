-- ===== src/Controller/Provider/Release.antt =====
-- internal/controller/ldapprovider_controller.go: Reconcile of a provider that is being deleted and that no
-- binding refers to.
use directory_rbac_operator.Base.{
  String, ◌≡◌, refl, sym, ap, ◌∙◌, ◌⊎◌, inl, inr, true, false, some, pos,
}
use directory_rbac_operator.Go.Errors.{foreign}
use directory_rbac_operator.Go.Action.{
  ok, err, Result-cases, ◌>>=◌, ◌>>◌, and_then, call, map_err, with_error, pure, perform, try,
  deferring,
}
use directory_rbac_operator.Kube.Objects.{ObjectKey, key_of, is_zero}
use directory_rbac_operator.Kube.Client.{ProviderUpdates}
use directory_rbac_operator.Metrics.{sync_duration}
use directory_rbac_operator.Api.{LdapProvider}
use directory_rbac_operator.Controller.Laws.{KeepsView}
use directory_rbac_operator.Controller.Provider.{
  FinalizerLibrary, LdapProviderReconciler, ldap_provider_kind, in_use_protection_finalizer,
  after_bindings, has_dependents, forget, on_in_use, finalize, on_provider, reconcile,
}
use directory_rbac_operator.Controller.Provider.Finalizer.{IsUnused}

-- The helpers for finalizers look at the list of finalizers, and one that is removed is not in it.
pub record FinalizerLaws (lib : FinalizerLibrary) : Type 0 where
  pub contains_finalizer-reads :
      (p q : LdapProvider) (name : String)
      → q.meta.finalizers ≡ p.meta.finalizers
      → lib.contains_finalizer q name ≡ lib.contains_finalizer p name
  pub remove_finalizer-removed :
      (p : LdapProvider) (name : String)
      → lib.contains_finalizer (lib.remove_finalizer p name) name ≡ false
  pub remove_finalizer-key :
      (p : LdapProvider) (name : String) → key_of (lib.remove_finalizer p name).meta ≡ key_of p.meta

-- The provider was read, is being deleted and has the finalizer; nothing refers to it.
pub record IsReleasable {W E : Type 0} (r : LdapProviderReconciler W E) (req : ObjectKey) (w : W)
    (p : LdapProvider) : Type 0 where
  pub found : (r.client.get_provider req w).0 ≡ ok p
  pub is_deleted : is_zero p.meta.deletion_timestamp ≡ false
  pub is_protected : r.finalizers.contains_finalizer p in_use_protection_finalizer ≡ true
  pub is_unused : IsUnused r.client p (r.client.get_provider req w).1

module _ {W E : Type 0} (r : LdapProviderReconciler W E) where
  open r use {client, runtime, forget_limiter, finalizers}

  -- The world after the provider and what refers to it were read.
  unfoldable pub after_reads : ObjectKey → LdapProvider → W → W
  after_reads req p w =
      let w' = (client.list_bindings_of p.meta.name 1 (client.get_provider req w).1).1 in
      (client.list_cluster_bindings_of p.meta.name 1 w').1

  -- Then the limiter is forgotten and the finalizer removed.
  pub reconcile_releasing :
      (req : ObjectKey) (w : W) (p : LdapProvider)
      → IsReleasable r req w p
      → let m = on_in_use r p false (after_reads req p w) in
        reconcile r req w ≡ (m.0, runtime.observe (sync_duration ldap_provider_kind) m.1)
  unfolding reconcile on_provider finalize has_dependents after_bindings ◌>>=◌ try call map_err
      with_error deferring and_then pure after_reads
  reconcile_releasing req w p h = rw (
    h.found, h.is_deleted, h.is_protected, h.is_unused.no_bindings, h.is_unused.no_cluster_bindings,
  )

  module _ (updates : ProviderUpdates client) (lib : FinalizerLaws finalizers)
      (keeps : KeepsView runtime updates.providers) where
    open updates use {providers}

    -- What is stored under the key, if anything still is, does not have the finalizer.
    pub IsReleased : ObjectKey → W → Type 0
    IsReleased key w =
        (q : LdapProvider)
        → providers w key ≡ some q
        → finalizers.contains_finalizer q in_use_protection_finalizer ≡ false

    on_in_use-IsReleased :
        (p : LdapProvider) (w : W)
        → let m = on_in_use r p false w in
          ((e : E) × (m.0 ≡ err (foreign e)))
          ⊎ ((m.0 ≡ ok (record { requeue_after = pos 0 })) × IsReleased (key_of p.meta) m.1)
    unfolding on_in_use ◌>>=◌ ◌>>◌ perform call map_err with_error and_then pure IsReleased
    on_in_use-IsReleased p w =
        let p' = finalizers.remove_finalizer p in_use_protection_finalizer in
        let w' = forget r forget_limiter p.meta.name w in
        elim (Result-cases (client.update_provider p' w').0) [
          | inl (sent, q) ↦ inr (
            rw q refl,
            rw q (λ stored at.
                lib.contains_finalizer-reads p' stored in_use_protection_finalizer (
                  updates.update_provider-stored p' w' sent stored q (
                    ap (providers (client.update_provider p' w').1) (lib.remove_finalizer-key p _)
                    ∙ at))
                ∙ lib.remove_finalizer-removed p in_use_protection_finalizer),
          )
          | inr (e, q) ↦ inl (e, rw q refl)
        ]

    -- When a provider that has the finalizer is being deleted and both lists of what refers to it are answered and
    -- empty, Reconcile takes the finalizer off: it asks for no further check, and the provider that is stored, if it
    -- still is, does not have the finalizer, provided that an accepted Update stores the finalizers that it sent; or it
    -- returns the error with which the API server refused the update.
    pub reconcile-IsReleased :
        (req : ObjectKey) (w : W) (p : LdapProvider)
        → IsReleasable r req w p
        → let (res, after) = reconcile r req w in
          ((e : E) × (res ≡ err (foreign e)))
          ⊎ ((res ≡ ok (record { requeue_after = pos 0 })) × IsReleased (key_of p.meta) after)
    unfolding IsReleased
    reconcile-IsReleased req w p h =
        rw (reconcile_releasing req w p h) (elim (on_in_use-IsReleased p (after_reads req p w)) [
          | inl refused ↦ inl refused
          | inr (q, released) ↦ inr (
            q,
            λ stored at.
                released stored (sym (ap (λ v. v (key_of p.meta)) (keeps.observe-keeps _ _)) ∙ at),
          )
        ])
