-- ===== src/Operator/Tests.antt =====
-- Two clients for one provider, with limiters of others made and deleted in between.
use directory_rbac_operator.Base.{ℕ, suc, String, ◌≡◌, refl, none, some, List, [], ◌∷◌, nat_eq}
use directory_rbac_operator.Go.Action.{
  err, ◌>>=◌, pure, call, map_err, wrapping, reading, with_error, try, deferring, perform, and_then,
  ◌>>◌,
}
use directory_rbac_operator.Go.Sort.{insertion}
use directory_rbac_operator.Ldapclient.Library.{Config}
use directory_rbac_operator.Ldapclient.Limiters.{
  RateLibrary, Operation, get_of, delete_of, run, spares, get, or_new, delete, lookup, insert,
  remove, entries_of, rate_of, burst_of,
}
use directory_rbac_operator.Controller.Sample.{
  put, no_limiters, World, ApiError, refused, client, runtime,
}
use directory_rbac_operator.Controller.Sample.Laws.{same, found-keeps}
use directory_rbac_operator.Controller.Provider.Tests.{finalizers, listing}
use directory_rbac_operator.Controller.Factory.{
  ca_secret_ref, limiter_for, on_value, secret_value, on_pool, on_ca, tls_config, client_config,
  new_client,
}
use directory_rbac_operator.Controller.Factory.Tests.{lib, certs, pinned, cluster}
use directory_rbac_operator.Kube.Objects.{key_of}
use directory_rbac_operator.Go.Action.Keeps.{Keeps}
use directory_rbac_operator.Api.{LdapProvider}
use directory_rbac_operator.Controller.Laws.{KeepsView}
use directory_rbac_operator.Controller.Provider.{
  LdapProviderReconciler, reconcile, on_provider, finalize, has_dependents, after_bindings,
  on_in_use, forget,
}
use directory_rbac_operator.Controller.Provider.Release.{IsReleasable}
use directory_rbac_operator.Controller.Provider.ReleaseTests.{list_finalizers, leaving}
use directory_rbac_operator.Operator.{
  Manager, get_limiter, delete_limiter, grouper_factory, ldap_provider_reconciler,
}
use directory_rbac_operator.Operator.Release.{new_client-released}
use directory_rbac_operator.Operator.Budget.{SharesLimiters, new_client-limiter}

-- A new limiter is the number on the clock.
abbrev pub rates : RateLibrary World ℕ ℕ
rates = record {
  of_ℕ = λ n. n;
  is_zero = λ r. nat_eq r 0;
  new_limiter = λ rate burst w. (w.clock, record w { clock = suc w.clock });
}

abbrev pub mgr : Manager World ApiError ℕ ℕ
mgr = record {
  client = client;
  runtime = runtime;
  list_providers = λ limit w. (err refused, w);
  secret_namespace = "ldap";
  limiters = λ w. w.limiters;
  set_limiters = λ l w. record w { limiters = l };
}

pub shares : SharesLimiters mgr
shares = record {
  get-set = λ l w. refl;
  get_secret-Keeps = λ key. same _ _ (λ w. found-keeps (λ w'. w'.limiters) (w.secrets key) w);
}

abbrev between : List Operation
between = get_of "other-ldap" ∷ delete_of "other-ldap" ∷ get_of "corp-ad" ∷ []

-- Everything that the building of a client computes with.
program : Unit {0}
unfolding new_client client_config tls_config ca_secret_ref secret_value on_value on_ca on_pool
    limiter_for grouper_factory get_limiter get or_new delete lookup insert remove entries_of
    rate_of burst_of run spares ◌>>=◌ pure call map_err wrapping reading with_error
program = tt

abbrev first : World
first =
    (new_client lib certs (grouper_factory lib certs rates insertion finalizers mgr) pinned
      cluster).1

abbrev second : World
second = record first { limiters = (run rates between (first.limiters, first)).0 }

abbrev cfg : Config String ℕ
unfolding program
cfg =
    client_config lib certs (grouper_factory lib certs rates insertion finalizers mgr) pinned
      "hunter" (some "corp root") (some 7)

new_client-limiter_example :
    (limiter : ℕ) × (cfg.limiter ≡ some limiter) × (cfg.limiter ≡ some limiter)
unfolding program
new_client-limiter_example =
    new_client-limiter lib certs rates insertion finalizers mgr shares pinned pinned between cluster
      second first cfg cfg refl refl refl refl refl

-- A manager on the cluster where nothing refers to the provider that is being deleted.
abbrev released_mgr : Manager World ApiError ℕ ℕ
released_mgr = record {
  client = listing;
  runtime = runtime;
  list_providers = λ limit w. (err refused, w);
  secret_namespace = "ldap";
  limiters = λ w. w.limiters;
  set_limiters = λ l w. record w { limiters = l };
}

released_shares : SharesLimiters released_mgr
released_shares = record {
  get-set = λ l w. refl;
  get_secret-Keeps = λ key. same _ _ (λ w. found-keeps (λ w'. w'.limiters) (w.secrets key) w);
}

limiters_keep : KeepsView runtime (λ w. w.limiters)
limiters_keep = record {
  now-keeps = λ w. refl;
  set_status_condition-keeps = λ cs c w. refl;
  record_event-keeps = λ e w. refl;
  observe-keeps = λ m w. refl;
}

update-Keeps : (p : LdapProvider) → Keeps (λ w. w.limiters) (listing.update_provider p)
update-Keeps p = record { keeps = λ w. refl }

-- The provider has a limiter while it is being deleted.
abbrev deleting : World
deleting = record cluster {
  providers = put (key_of leaving.meta) (some leaving) (λ key. none);
  limiters = record no_limiters { limiters = some (("corp-ad", 3) ∷ []) };
}

abbrev providers_reconciler : LdapProviderReconciler World ApiError
providers_reconciler =
    ldap_provider_reconciler lib certs rates insertion list_finalizers released_mgr

deleting-IsReleasable : IsReleasable providers_reconciler (key_of leaving.meta) deleting leaving
unfolding ldap_provider_reconciler list_finalizers
deleting-IsReleasable = record {
  found = refl;
  is_deleted = refl;
  is_protected = refl;
  is_unused = record { no_bindings = refl; no_cluster_bindings = refl };
}

abbrev after_release : World
after_release = (reconcile providers_reconciler (key_of leaving.meta) deleting).1

-- Everything that the release computes with.
release_program : Unit {0}
unfolding program ldap_provider_reconciler list_finalizers reconcile on_provider finalize
    has_dependents after_bindings on_in_use forget delete_limiter try deferring perform and_then
    ◌>>◌
release_program = tt

abbrev new_cfg : Config String ℕ
unfolding program
new_cfg =
    client_config lib certs (grouper_factory lib certs rates insertion list_finalizers released_mgr)
      pinned "hunter" (some "corp root") (some 7)

new_client-released_example :
    (asking : World) × (asking.limiters ≡ after_release.limiters)
    × ((new_client lib certs
          (grouper_factory lib certs rates insertion list_finalizers released_mgr)
          pinned
          after_release).1
        ≡ (get_limiter lib certs rates insertion list_finalizers released_mgr "corp-ad" asking).1)
    × (new_cfg.limiter ≡ some asking.clock)
unfolding program release_program
new_client-released_example =
    new_client-released lib certs rates insertion list_finalizers released_mgr released_shares
      limiters_keep update-Keeps (key_of leaving.meta) leaving pinned deleting after_release new_cfg
      deleting-IsReleasable refl refl refl
