-- ===== src/Controller/Factory/Frame.antt =====
-- internal/controller/grouperfactory.go: what reading the secrets of a provider leaves alone.
use directory_rbac_operator.Base.{String, Bool, true, false, Option, none, some}
use directory_rbac_operator.Go.Action.Keeps.{Keeps, keeps_rules, pure-Keeps, fail-Keeps}
use directory_rbac_operator.Kube.Objects.{ObjectKey}
use directory_rbac_operator.Api.{LdapProvider, SecretKeyRef}
use directory_rbac_operator.Ldapclient.Library.{Library}
use directory_rbac_operator.Controller.Factory.{
  CertificateLibrary, GrouperFactory, on_value, secret_value, on_pool, on_ca, tls_config,
}

module _ {W E C T L N P V : Type 0} (lib : Library W E C T L N) (certs : CertificateLibrary T P)
    (f : GrouperFactory W E L) (view : W → V)
    (get_secret-Keeps : (key : ObjectKey) → Keeps view (f.client.get_secret key)) where
  on_value-Keeps :
      (ref : SecretKeyRef) (o : Option String) → Keeps view (on_value lib certs f ref o)
  unfolding on_value
  on_value-Keeps ref none = fail-Keeps _
  on_value-Keeps ref (some v) = pure-Keeps v

  pub secret_value-Keeps : (ref : SecretKeyRef) → Keeps view (secret_value lib certs f ref)
  unfolding secret_value
  secret_value-Keeps ref = search (keeps_rules, get_secret-Keeps, on_value-Keeps) depth 9

  on_pool-Keeps :
      (ref : SecretKeyRef) (answer : P × Bool) → Keeps view (on_pool lib certs f ref answer)
  unfolding on_pool
  on_pool-Keeps ref (pool, true) = pure-Keeps _
  on_pool-Keeps ref (pool, false) = fail-Keeps _

  on_ca-Keeps : (ref : Option SecretKeyRef) → Keeps view (on_ca lib certs f ref)
  unfolding on_ca
  on_ca-Keeps none = pure-Keeps none
  on_ca-Keeps (some ref) = search (keeps_rules, secret_value-Keeps, on_pool-Keeps) depth 9

  pub tls_config-Keeps : (p : LdapProvider) → Keeps view (tls_config lib certs f p)
  unfolding tls_config
  tls_config-Keeps p = on_ca-Keeps _
