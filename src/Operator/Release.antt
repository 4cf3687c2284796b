-- ===== src/Operator/Release.antt =====
-- main.go: a provider that comes back after it was deleted starts with a new budget.
use mathlib.Core.Path.{ap₂}
use directory_rbac_operator.Base.{String, ◌≡◌, ap, ◌∙◌, false, some}
use directory_rbac_operator.Go.Action.{ok, ◌>>=◌, ◌>>◌, and_then, perform}
use directory_rbac_operator.Go.Action.Keeps.{Keeps, >>-Keeps, call-Keeps, pure-Keeps}
use directory_rbac_operator.Go.Sort.{Sorter}
use directory_rbac_operator.Kube.Objects.{ObjectKey}
use directory_rbac_operator.Api.{LdapProvider}
use directory_rbac_operator.Ldapclient.Library.{Library, Config}
use directory_rbac_operator.Ldapclient.Limiters.{
  RateLibrary, get, delete, rate_of, burst_of, get-delete,
}
use directory_rbac_operator.Controller.Laws.{KeepsView}
use directory_rbac_operator.Controller.Provider.{
  FinalizerLibrary, LdapProviderReconciler, in_use_protection_finalizer, forget, on_in_use,
  reconcile,
}
use directory_rbac_operator.Controller.Provider.Release.{
  IsReleasable, after_reads, reconcile_releasing,
}
use directory_rbac_operator.Controller.Factory.{CertificateLibrary, GrouperFactory, new_client}
use directory_rbac_operator.Operator.{
  Manager, get_limiter, delete_limiter, grouper_factory, ldap_provider_reconciler,
}
use directory_rbac_operator.Operator.Budget.{SharesLimiters, new_client-AsksFor}

module _ {W E C T R L N P : Type 0} (lib : Library W E C T L N) (certs : CertificateLibrary T P)
    (rates : RateLibrary W R L) (s : Sorter String) (finalizers : FinalizerLibrary)
    (mgr : Manager W E R L) (shares : SharesLimiters mgr)
    (keeps : KeepsView mgr.runtime mgr.limiters)
    (update-Keeps : (p : LdapProvider) → Keeps mgr.limiters (mgr.client.update_provider p)) where
  abbrev factory : GrouperFactory W E L
  factory = grouper_factory lib certs rates s finalizers mgr

  abbrev providers_reconciler : LdapProviderReconciler W E
  providers_reconciler = ldap_provider_reconciler lib certs rates s finalizers mgr

  -- Releasing leaves the limiters as they are after the deletion of the provider's own.
  on_in_use-limiters :
      (p : LdapProvider) (w : W)
      → mgr.limiters (on_in_use providers_reconciler p false w).1
        ≡ delete rates p.meta.name (mgr.limiters w)
  unfolding on_in_use ldap_provider_reconciler forget delete_limiter ◌>>◌ ◌>>=◌ perform and_then
  on_in_use-limiters p w =
      let p' = finalizers.remove_finalizer p in_use_protection_finalizer in
      let w' = mgr.set_limiters (delete rates p.meta.name (mgr.limiters w)) w in
      (>>-Keeps _ _ (call-Keeps _ (update-Keeps p')) (pure-Keeps _)).keeps w' ∙ shares.get-set _ w

  reconcile-limiters :
      (req : ObjectKey) (w : W) (p : LdapProvider)
      → IsReleasable providers_reconciler req w p
      → mgr.limiters (reconcile providers_reconciler req w).1
        ≡ delete rates p.meta.name (mgr.limiters (after_reads providers_reconciler req p w))
  unfolding ldap_provider_reconciler
  reconcile-limiters req w p h =
      ap (λ m. mgr.limiters m.1) (reconcile_releasing providers_reconciler req w p h)
      ∙ keeps.observe-keeps _ _
      ∙ on_in_use-limiters p _

  -- A client that is built under the name of a provider that was released, which had the finalizer and nothing that
  -- refers to it, gets a limiter that is made for it with the configured rate and burst, in the world that the
  -- building of the client has come to, and the client leaves the world of that call of Get behind. This holds whether
  -- or not the API server accepted the update that takes the finalizer off, since the entry of the provider is deleted
  -- before the update. Between the release and the client the limiters are as the release left them, and they are
  -- changed by Get and Delete alone.
  pub new_client-released :
      (req : ObjectKey) (p p' : LdapProvider) (w w' : W) (cfg : Config T L)
      → IsReleasable providers_reconciler req w p
      → mgr.limiters w' ≡ mgr.limiters (reconcile providers_reconciler req w).1
      → p'.meta.name ≡ p.meta.name
      → (new_client lib certs factory p' w').0 ≡ ok cfg
      → let limiters = mgr.limiters (after_reads providers_reconciler req p w) in
        (asking : W) × (mgr.limiters asking ≡ mgr.limiters w')
        × ((new_client lib certs factory p' w').1
            ≡ (get_limiter lib certs rates s finalizers mgr p'.meta.name asking).1)
        × (cfg.limiter
            ≡ some (rates.new_limiter (rate_of rates limiters) (burst_of rates limiters) asking).0)
  unfolding get_limiter
  new_client-released req p p' w w' cfg releasable later same_name built =
      let limiters = mgr.limiters (after_reads providers_reconciler req p w) in
      let a = new_client-AsksFor lib certs rates s finalizers mgr shares p' w' cfg built in
      let held = a.same_limiters ∙ later ∙ reconcile-limiters req w p releasable in
      (
        a.asking,
        a.same_limiters,
        a.world,
        a.is_limiter
            ∙ ap some (
                ap₂ (λ name l. (get rates name l a.asking).0) same_name held
                ∙ get-delete rates p.meta.name limiters a.asking),
      )
