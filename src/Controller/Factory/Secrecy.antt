-- ===== src/Controller/Factory/Secrecy.antt =====
-- internal/controller/grouperfactory.go with internal/ldapclient: the bind password that the factory read from a
-- secret goes out in clear only for a provider that allows it.
use directory_rbac_operator.Base.{◌≡◌, sym, ap, ◌∙◌, String, false}
use directory_rbac_operator.Go.Errors.{GoError}
use directory_rbac_operator.Go.Action.{Action, ok, ok-injective, pure}
use directory_rbac_operator.Go.Action.Bind.{>>=-eq_ok}
use directory_rbac_operator.Go.Sort.{Sorter}
use directory_rbac_operator.Kube.Client.{SecretStore}
use directory_rbac_operator.Api.{LdapProvider}
use directory_rbac_operator.Ldapclient.Library.{Library, Config}
use directory_rbac_operator.Ldapclient.Client.{ping, get_group_members}
use directory_rbac_operator.Ldapclient.Secrecy.{Encryption, get_group_members-leaked, ping-leaked}
use directory_rbac_operator.Controller.Common.{Grouper, Pinger}
use directory_rbac_operator.Controller.Factory.{
  CertificateLibrary, GrouperFactory, new_client, grouper, pinger,
}
use directory_rbac_operator.Controller.Factory.Settings.{new_client-IsConfigured}

module _ {W E C T L N P : Type 0} (lib : Library W E C T L N) (certs : CertificateLibrary T P)
    (f : GrouperFactory W E L) (s : Sorter String) where
  -- A call on what the factory answered for a provider.
  pub data IsCallOf (p : LdapProvider) (w : W)
      : (A : Type 0) → Action W (GoError E) A → Type 1 where
    members_of :
        (g : Grouper W E) (dn : String)
        → (grouper lib certs f s p w).0 ≡ ok g
        → IsCallOf p w _ (g dn)
    check_of : (check : Pinger W E) → (pinger lib certs f p w).0 ≡ ok check → IsCallOf p w _ check

  -- What the factory answers is a client that it built.
  pub grouper-ok :
      (p : LdapProvider) (w : W) (g : Grouper W E)
      → (grouper lib certs f s p w).0 ≡ ok g
      → (cfg : Config T L) × ((new_client lib certs f p w).0 ≡ ok cfg)
        × (g ≡ get_group_members lib cfg s)
  unfolding grouper pure
  grouper-ok p w g h =
      let path = >>=-eq_ok _ _ w g h in
      (path.value, path.passed, ok-injective (sym h ∙ ap (λ m. m.0) path.goes_on))

  pub pinger-ok :
      (p : LdapProvider) (w : W) (check : Pinger W E)
      → (pinger lib certs f p w).0 ≡ ok check
      → (cfg : Config T L) × ((new_client lib certs f p w).0 ≡ ok cfg) × (check ≡ ping lib cfg)
  unfolding pinger pure
  pinger-ok p w check h =
      let path = >>=-eq_ok _ _ w check h in
      (path.value, path.passed, ok-injective (sym h ∙ ap (λ m. m.0) path.goes_on))

  module _ (store : SecretStore f.client) {V : Type 0} (IsTls : C → W → Type 0) (leaked : W → V)
      (laws : Encryption lib IsTls leaked) where
    -- Unless a provider's specification sets insecureSkipTLS, neither a lookup of members nor a health check on what
    -- the factory answered for it sends in clear anything that a Bind sends, now or at any later time.
    pub call-leaked :
        (p : LdapProvider) (w w' : W) (A : Type 0) (m : Action W (GoError E) A)
        → p.spec.insecure_skip_tls ≡ false
        → IsCallOf p w A m
        → leaked (m w').1 ≡ leaked w'
    call-leaked p w w' A _ strict (IsCallOf.members_of g dn q) =
        let (cfg, built, is_g) = grouper-ok p w g q in
        let same =
          (new_client-IsConfigured lib certs f store p w cfg built).same_insecure_skip_tls in
        ap (λ g'. leaked (g' dn w').1) is_g
        ∙ get_group_members-leaked lib cfg IsTls leaked laws (same ∙ strict) s dn w'
    call-leaked p w w' A _ strict (IsCallOf.check_of check q) =
        let (cfg, built, is_check) = pinger-ok p w check q in
        let same =
          (new_client-IsConfigured lib certs f store p w cfg built).same_insecure_skip_tls in
        ap (λ m'. leaked (m' w').1) is_check
        ∙ ping-leaked lib cfg IsTls leaked laws (same ∙ strict) w'
