-- ===== src/Controller/Readiness/Health.antt =====
-- internal/controller: the health check of the providers and the readiness of the operator agree.
use mathlib.Core.List.{Memᴰ}
use directory_rbac_operator.Base.{
  some-injective, ◌≡◌, ◌⊎◌, inl, inr, sym, subst, ◌∙◌, some, List, [], ◌∷◌, refl,
}
use directory_rbac_operator.Go.Action.{ok}
use directory_rbac_operator.Kube.Objects.{ObjectKey, key_of}
use directory_rbac_operator.Kube.Client.{ProviderStore}
use directory_rbac_operator.Api.{LdapProvider}
use directory_rbac_operator.Controller.Common.{Pinger}
use directory_rbac_operator.Controller.Laws.{RuntimeLaws, KeepsView}
use directory_rbac_operator.Controller.Provider.{LdapProviderReconciler, reconcile}
use directory_rbac_operator.Controller.Stored.{Refused}
use directory_rbac_operator.Controller.Provider.Health.{IsChecked, reconcile-IsVerified}
use directory_rbac_operator.Controller.Provider.Transport.{IsExplicit}
use directory_rbac_operator.Controller.Readiness.{
  LdapProviderReadiness, Serves, AllServe, check, check_iff,
}

module _ {W E : Type 0} (r : LdapProviderReconciler W E) (store : ProviderStore r.client)
    (rt : RuntimeLaws r.runtime) (keeps : KeepsView r.runtime store.providers) where
  open r use {runtime, pinger}
  open store use {providers}
  open runtime use {constants}

  AllServe-of :
      (ps : List LdapProvider)
      → ((q : LdapProvider) → Memᴰ q ps → Serves runtime q)
      → AllServe runtime ps
  AllServe-of [] all = tt
  AllServe-of (q ∷ ps) all = (all q (Memᴰ.head refl), AllServe-of ps (λ x m. all x (Memᴰ.tail m)))

  -- When a provider was read, is not being deleted and has the finalizer or could be given it, its specification is
  -- explicit, its directory accepts the bind and Reconcile returns no error, then the readiness check passes in every
  -- later world where what is stored of the provider is still the same, and where every provider that the cache lists
  -- is either the one stored or has a condition Ready with status True; else Reconcile returned the error with which
  -- the API server refused the status.
  pub reconcile-Serves :
      (req : ObjectKey) (w before later : W) (p : LdapProvider) (ping : Pinger W E)
      (readiness : LdapProviderReadiness W E) (ps : List LdapProvider)
      → let (res, after) = reconcile r req w in
        IsChecked r req w p before
        → IsExplicit p.spec
        → (pinger p before).0 ≡ ok ping
        → (ping (pinger p before).1).0 ≡ ok tt
        → providers later (key_of p.meta) ≡ providers after (key_of p.meta)
        → (readiness.list readiness.timeout later).0 ≡ ok ps
        → ((q : LdapProvider)
            → Memᴰ q ps
            → (providers later (key_of p.meta) ≡ some q) ⊎ Serves runtime q)
        → Refused res ⊎ ((check runtime readiness later).0 ≡ ok tt)
  reconcile-Serves req w before later p ping readiness ps checked explicit resolved answered same
        listed others =
      elim (reconcile-IsVerified r store rt keeps req w before p ping checked explicit resolved
        answered) [
          | inl refused ↦ inl refused
          | inr (_, status) ↦
              let flag = status.status.reports.shows_ready in
              let serves : Serves runtime status.stored =
                (flag.stored, flag.found, flag.has_status) in
              inr (
                (check_iff runtime readiness ps later listed).1 (
                  AllServe-of ps (λ q m. elim (others q m) [
                    | inl is_stored ↦
                        subst (Serves runtime)
                          (some-injective (sym (same ∙ status.at_key) ∙ is_stored)) serves
                    | inr fine ↦ fine
                  ])))
        ]
