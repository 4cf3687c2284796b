-- ===== src/Controller/Provider/Health.antt =====
-- internal/controller/ldapprovider_controller.go: Reconcile of a provider that is not being deleted, on each
-- outcome of the check of its specification and of the directory.
use directory_rbac_operator.Base.{◌≡◌, ◌⊎◌, inl, inr, ◌∙◌, true, pos}
use directory_rbac_operator.Go.Errors.{GoError}
use directory_rbac_operator.Go.Action.{ok, err, try, deferring, ◌>>=◌, call, with_error}
use directory_rbac_operator.Go.Action.Keeps.{Keeps, KeepsEffect, keeps_rules}
use directory_rbac_operator.Kube.Objects.{ObjectKey, key_of, is_zero}
use directory_rbac_operator.Kube.Client.{ProviderStore}
use directory_rbac_operator.Metrics.{sync_duration}
use directory_rbac_operator.Api.{LdapProvider}
use directory_rbac_operator.Controller.Common.{Pinger}
use directory_rbac_operator.Controller.Quiet.{set_conditions-keeps, record_warning-keeps}
use directory_rbac_operator.Controller.Laws.{RuntimeLaws, KeepsView}
use directory_rbac_operator.Controller.Stored.{Refused, HasStatus-later}
use directory_rbac_operator.Controller.Provider.{
  LdapProviderReconciler, ldap_provider_kind, validate_tls_config, mark_invalid_spec, on_ping,
  on_pinger, on_valid, protect, on_provider, reconcile,
}
use directory_rbac_operator.Controller.Provider.Outcome.{
  HasStatus, IsVerified, time_of_check, IsInvalid, mark_ready_lem, mark_invalid_spec_lem,
}
use directory_rbac_operator.Controller.Provider.Transport.{
  IsExplicit, IsImplicit, validate-IsExplicit, validate-IsImplicit,
}

-- The provider was read, is not being deleted, and has its finalizer; `before` is the world in which it is checked.
pub record IsChecked {W E : Type 0} (r : LdapProviderReconciler W E) (req : ObjectKey) (w : W)
    (p : LdapProvider) (before : W) : Type 0 where
  pub read : LdapProvider
  pub found : (r.client.get_provider req w).0 ≡ ok read
  pub is_live : is_zero read.meta.deletion_timestamp ≡ true
  pub protected : (protect r read (r.client.get_provider req w).1).0 ≡ ok p
  pub reached : (protect r read (r.client.get_provider req w).1).1 ≡ before

module _ {W E : Type 0} (r : LdapProviderReconciler W E) where
  open r use {client, runtime, pinger}

  -- How the check of the directory ended with an error.
  pub data FailsWith (p : LdapProvider) (w : W) (e : GoError E) : Type 0 where
    no_pinger : (pinger p w).0 ≡ err e → FailsWith p w e
    no_answer :
        (ping : Pinger W E)
        → (pinger p w).0 ≡ ok ping
        → (ping (pinger p w).1).0 ≡ err e
        → FailsWith p w e

  reconcile_checking :
      (req : ObjectKey) (w before : W) (p : LdapProvider)
      → IsChecked r req w p before
      → let valid = validate_tls_config p.spec before in
        let m = on_valid r p valid.0 valid.1 in
        reconcile r req w ≡ (m.0, runtime.observe (sync_duration ldap_provider_kind) m.1)
  unfolding reconcile on_provider ◌>>=◌ try call with_error deferring
  reconcile_checking req w before p h = rw (h.found, h.is_live, h.protected, h.reached)

module _ {W E : Type 0} (r : LdapProviderReconciler W E) (store : ProviderStore r.client)
    (rt : RuntimeLaws r.runtime) (keeps : KeepsView r.runtime store.providers) where
  open r use {client, runtime, pinger}
  open store use {providers}

  -- When a provider was read, is not being deleted and has the finalizer or could be given it, its specification is
  -- explicit, and its directory accepts the bind, Reconcile asks for the next check after the sync interval and stores
  -- that the provider is Ready and not Degraded, and was verified at the time that the clock shows once the bind was
  -- accepted and the outcome counted; or it returns the error with which the API server refused the status.
  pub reconcile-IsVerified :
      (req : ObjectKey) (w before : W) (p : LdapProvider) (ping : Pinger W E)
      → IsChecked r req w p before
      → IsExplicit p.spec
      → (pinger p before).0 ≡ ok ping
      → (ping (pinger p before).1).0 ≡ ok tt
      → let (res, after) = reconcile r req w in
        Refused res
        ⊎ ((res ≡ ok (record { requeue_after = p.spec.sync_interval }))
            × HasStatus r store
                (key_of p.meta)
                after
                (IsVerified r store p (time_of_check r store (ping (pinger p before).1).1)))
  unfolding on_valid on_pinger on_ping ◌>>=◌ try
  reconcile-IsVerified req w before p ping checked explicit resolved answered =
      rw
        (
          reconcile_checking r req w before p checked,
          validate-IsExplicit {E = E} p.spec before explicit,
          resolved,
          answered,
        )
        (elim (mark_ready_lem r store rt p (ping (pinger p before).1).1) [
          | inl refused ↦ inl refused
          | inr (q, status) ↦ inr (q, HasStatus-later providers _ (keeps.observe-keeps _ _) status)
        ])

  module _ {V : Type 0} (network : W → V) (keeps_network : KeepsView runtime network)
      (status-Keeps : (p : LdapProvider) → Keeps network (client.update_provider_status p)) where
    observe-keeps : (m : _) → KeepsEffect network (runtime.observe m)
    observe-keeps m w = keeps_network.observe-keeps m w

    mark_invalid_spec-Keeps :
        (p : LdapProvider) (e : GoError E) → Keeps network (mark_invalid_spec r p e)
    unfolding mark_invalid_spec
    mark_invalid_spec-Keeps p e =
        search
          (
            keeps_rules,
            set_conditions-keeps keeps_network,
            record_warning-keeps keeps_network,
            observe-keeps,
            status-Keeps,
          )
          depth 9

    -- When a provider was read, is not being deleted and has the finalizer or could be given it, and its specification
    -- makes no choice about transport security, Reconcile does not touch the directory from then on: whatever writing
    -- the status leaves alone, the network among it, is as it was. It asks for no further check and stores that the provider is not Ready, with what was said about
    -- Degraded as it was; or it returns the error with which the API server refused the status.
    pub reconcile-IsInvalid :
        (req : ObjectKey) (w before : W) (p : LdapProvider)
        → IsChecked r req w p before
        → IsImplicit p.spec
        → let (res, after) = reconcile r req w in
          (network after ≡ network before)
          × (Refused res
              ⊎ ((res ≡ ok (record { requeue_after = pos 0 }))
                  × HasStatus r store (key_of p.meta) after (IsInvalid r store p)))
    unfolding on_valid
    reconcile-IsInvalid req w before p checked implicit =
        let (e, path) = validate-IsImplicit {E = E} p.spec before implicit in
        rw (reconcile_checking r req w before p checked, path)
          (
            observe-keeps _ _ ∙ (mark_invalid_spec-Keeps p e).keeps before,
            elim (mark_invalid_spec_lem r store rt p e before) [
              | inl refused ↦ inl refused
              | inr (q, status) ↦
                  inr (q, HasStatus-later providers _ (keeps.observe-keeps _ _) status)
            ],
          )
