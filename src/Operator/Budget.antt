-- ===== src/Operator/Budget.antt =====
-- main.go: the rate limit of a directory is one budget for every part of the operator.
use directory_rbac_operator.Base.{String, ◌≡◌, sym, ap, ◌∙◌, true, Option, some, List}
use directory_rbac_operator.Go.Action.{ok, ok-injective, ◌>>=◌, pure, reading, wrapping}
use directory_rbac_operator.Go.Action.Bind.{>>=-eq_ok}
use directory_rbac_operator.Go.Action.Keeps.{Keeps, wrapping-Keeps}
use directory_rbac_operator.Go.Sort.{Sorter}
use directory_rbac_operator.Kube.Objects.{ObjectKey}
use directory_rbac_operator.Api.{LdapProvider}
use directory_rbac_operator.Ldapclient.Library.{Library, Config}
use directory_rbac_operator.Ldapclient.Limiters.{
  RateLibrary, Limiters, Operation, lookup, entries_of, get, run, spares, get-lookup, run-lookup,
  get-found,
}
use directory_rbac_operator.Controller.Provider.{FinalizerLibrary}
use directory_rbac_operator.Controller.Factory.{
  CertificateLibrary, GrouperFactory, limiter_for, client_config, secret_value, tls_config,
  new_client,
}
use directory_rbac_operator.Controller.Factory.Frame.{secret_value-Keeps, tls_config-Keeps}
use directory_rbac_operator.Operator.{Manager, get_limiter, grouper_factory}

-- The variable holds what was stored in it, and reading a secret leaves it alone.
pub record SharesLimiters {W E R L : Type 0} (mgr : Manager W E R L) : Type 0 where
  pub get-set : (l : Limiters R L) (w : W) → mgr.limiters (mgr.set_limiters l w) ≡ l
  pub get_secret-Keeps : (key : ObjectKey) → Keeps mgr.limiters (mgr.client.get_secret key)

module _ {W E C T R L N P : Type 0} (lib : Library W E C T L N) (certs : CertificateLibrary T P)
    (rates : RateLibrary W R L) (s : Sorter String) (finalizers : FinalizerLibrary)
    (mgr : Manager W E R L) (shares : SharesLimiters mgr) where
  abbrev factory : GrouperFactory W E L
  factory = grouper_factory lib certs rates s finalizers mgr

  abbrev pub limiter_entry : String → W → Option L
  limiter_entry name w = lookup name (entries_of rates (mgr.limiters w))

  -- Where in the building of a client its limiter is asked for.
  pub record AsksFor (p : LdapProvider) (w : W) (cfg : Config T L) : Type 0 where
    pub asking : W
    pub same_limiters : mgr.limiters asking ≡ mgr.limiters w
    pub is_limiter :
        cfg.limiter ≡ some (get_limiter lib certs rates s finalizers mgr p.meta.name asking).0
    pub world :
        (new_client lib certs factory p w).1
        ≡ (get_limiter lib certs rates s finalizers mgr p.meta.name asking).1

  pub new_client-AsksFor :
      (p : LdapProvider) (w : W) (cfg : Config T L)
      → (new_client lib certs factory p w).0 ≡ ok cfg
      → AsksFor p w cfg
  unfolding new_client client_config reading pure grouper_factory limiter_for ◌>>=◌
  new_client-AsksFor p w cfg h =
      let read =
        wrapping "bind password secret: " ""
          (secret_value lib certs factory p.spec.bind_password_secret_ref) in
      let path = >>=-eq_ok read _ w cfg h in
      let w' = (read w).1 in
      let rest = sym (ap (λ m. m.0) path.goes_on) ∙ h in
      let chosen = >>=-eq_ok (tls_config lib certs factory p) _ w' cfg rest in
      let made = ok-injective (sym (ap (λ m. m.0) chosen.goes_on) ∙ rest) in
      record {
        asking = (tls_config lib certs factory p w').1;
        same_limiters =
            (tls_config-Keeps lib certs factory mgr.limiters shares.get_secret-Keeps p).keeps w'
            ∙ (wrapping-Keeps _ _ _ (
                  secret_value-Keeps lib certs factory mgr.limiters shares.get_secret-Keeps
                    p.spec.bind_password_secret_ref)).keeps
                w;
        is_limiter = sym (ap (λ c. c.limiter) made);
        world = ap (λ m. m.1) path.goes_on ∙ ap (λ m. m.1) chosen.goes_on;
      }

  -- The entry that a client leaves behind is its limiter.
  new_client-entry :
      (p : LdapProvider) (w : W) (cfg : Config T L)
      → (new_client lib certs factory p w).0 ≡ ok cfg
      → cfg.limiter ≡ limiter_entry p.meta.name (new_client lib certs factory p w).1
  unfolding get_limiter
  new_client-entry p w cfg h =
      let a = new_client-AsksFor p w cfg h in
      let after = (get rates p.meta.name (mgr.limiters a.asking) a.asking).1.0 in
      let held : mgr.limiters (new_client lib certs factory p w).1 ≡ after =
        ap mgr.limiters a.world ∙ shares.get-set _ _ in
      a.is_limiter
      ∙ sym (get-lookup rates p.meta.name (mgr.limiters a.asking) a.asking)
      ∙ sym (ap (λ l. lookup p.meta.name (entries_of rates l)) held)

  -- A client that is built where the provider has a limiter gets that limiter.
  pub new_client-found :
      (p : LdapProvider) (w : W) (cfg : Config T L) (limiter : L)
      → (new_client lib certs factory p w).0 ≡ ok cfg
      → limiter_entry p.meta.name w ≡ some limiter
      → cfg.limiter ≡ some limiter
  unfolding get_limiter
  new_client-found p w cfg limiter h q =
      let a = new_client-AsksFor p w cfg h in
      let here = ap (λ l. lookup p.meta.name (entries_of rates l)) a.same_limiters ∙ q in
      a.is_limiter
      ∙ ap some (get-found rates p.meta.name (mgr.limiters a.asking) a.asking limiter here).0

  -- Every client that is built for a provider has a rate limiter, and all have the same one, whichever part of the
  -- operator asks, at whichever version of the provider, and whatever is done with the limiters of this and other
  -- providers in between, unless the provider's own limiter is deleted, as the finalizer does.
  pub new_client-limiter :
      (p p' : LdapProvider) (ops : List Operation) (w w' other : W) (cfg cfg' : Config T L)
      → p'.meta.name ≡ p.meta.name
      → (new_client lib certs factory p w).0 ≡ ok cfg
      → spares rates p.meta.name ops ≡ true
      → mgr.limiters w'
        ≡ (run rates ops (mgr.limiters (new_client lib certs factory p w).1, other)).0
      → (new_client lib certs factory p' w').0 ≡ ok cfg'
      → (limiter : L) × (cfg.limiter ≡ some limiter) × (cfg'.limiter ≡ some limiter)
  new_client-limiter p p' ops w w' other cfg cfg' same_name built spared later again =
      let a = new_client-AsksFor p w cfg built in
      let limiter = (get_limiter lib certs rates s finalizers mgr p.meta.name a.asking).0 in
      let after = mgr.limiters (new_client lib certs factory p w).1 in
      let entry = sym (new_client-entry p w cfg built) ∙ a.is_limiter in
      let kept = run-lookup rates p.meta.name ops after other limiter spared entry in
      let here = ap (λ l. lookup p.meta.name (entries_of rates l)) later ∙ kept in
      let there = ap (λ name. limiter_entry name w') same_name ∙ here in
      (limiter, a.is_limiter, new_client-found p' w' cfg' limiter again there)
