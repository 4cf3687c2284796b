-- ===== src/Controller/Factory.antt =====
-- internal/controller/grouperfactory.go: the clients that the reconcilers resolve groups and check providers with,
-- each built from a provider and the secrets that it names.
pub mod Frame
pub mod Settings
pub mod Secrecy
pub mod Sources
pub mod Tests
use directory_rbac_operator.Base.{String, ◌+++◌, Bool, true, false, Option, none, some}
use directory_rbac_operator.Go.Errors.{GoError, plain}
use directory_rbac_operator.Go.Action.{Action, pure, fail, reading, ◌>>=◌, call, wrapping}
use directory_rbac_operator.Go.Sort.{Sorter}
use directory_rbac_operator.Kube.Objects.{ObjectKey, Secret}
use directory_rbac_operator.Kube.Client.{Client}
use directory_rbac_operator.Api.{LdapProvider, SecretKeyRef, TlsConfig}
use directory_rbac_operator.Ldapclient.Library.{Library, Config}
use directory_rbac_operator.Ldapclient.Client.{ping, get_group_members}
use directory_rbac_operator.Controller.Common.{Grouper, Pinger, GrouperResolver, PingerResolver}

-- crypto/x509 and crypto/tls: `P` is an *x509.CertPool.
pub record CertificateLibrary (T P : Type 0) : Type 0 where
  -- x509.NewCertPool
  pub new_cert_pool : P
  -- AppendCertsFromPEM: the pool after the call, and whether a certificate was found
  pub append_certs_from_pem : P → String → P × Bool
  -- &tls.Config{RootCAs: pool}
  pub with_root_cas : P → T

-- GrouperFactory; `get_limiter` is Get of its limiters, if it has any.
pub record GrouperFactory (W E L : Type 0) : Type 0 where
  pub client : Client W E
  pub secret_namespace : String
  pub get_limiter : Option (String → W → L × W)

-- The reference to a secret with the CA bundle, if both pointers are set.
unfoldable pub ca_secret_ref : Option TlsConfig → Option SecretKeyRef
ca_secret_ref none = none
ca_secret_ref (some tls) = tls.ca_secret_ref

-- The limiter that a client gets: nil where the factory has none.
unfoldable pub limiter_for :
    {W L : Type 0} → Option (String → W → L × W) → String → W → Option L × W
limiter_for none name w = (none, w)
limiter_for (some get) name w = let (limiter, w') = get name w in (some limiter, w')

module _ {W E C T L N P : Type 0} (lib : Library W E C T L N) (certs : CertificateLibrary T P)
    (f : GrouperFactory W E L) where
  open f use {secret_namespace, get_limiter}

  abbrev pub secret_key : SecretKeyRef → ObjectKey
  secret_key ref = record { namespace = secret_namespace; name = ref.name }

  -- What secretValue does with the entry that it looked up.
  unfoldable pub on_value : SecretKeyRef → Option String → Action W (GoError E) String
  on_value ref (some value) = pure value
  on_value ref none = fail (
      plain (
        "key "
        +++ (lib.quote ref.key
            +++ (" not found in secret " +++ (secret_namespace +++ ("/" +++ ref.name))))))

  unfoldable pub secret_value : SecretKeyRef → Action W (GoError E) String
  secret_value ref = do
    secret ← call (f.client.get_secret (secret_key ref))
    on_value ref (secret.entries ref.key)

  -- What tlsConfig does with the answer of AppendCertsFromPEM.
  unfoldable pub on_pool : SecretKeyRef → P × Bool → Action W (GoError E) (Option T)
  on_pool ref (pool, true) = pure (some (certs.with_root_cas pool))
  on_pool ref (pool, false) = fail (
      plain (
        "ca bundle secret "
        +++ (secret_namespace +++ ("/" +++ (ref.name +++ ": no valid PEM certificates found")))))

  unfoldable pub on_ca : Option SecretKeyRef → Action W (GoError E) (Option T)
  on_ca none = pure none
  on_ca (some ref) = do
    ca_pem ← wrapping "ca bundle secret: " "" (secret_value ref)
    on_pool ref (certs.append_certs_from_pem certs.new_cert_pool ca_pem)

  unfoldable pub tls_config : LdapProvider → Action W (GoError E) (Option T)
  unfolding ca_secret_ref
  tls_config p = on_ca (ca_secret_ref p.spec.tls_config)

  -- The configuration of the client for a provider.
  unfoldable pub client_config : LdapProvider → String → Option T → Option L → Config T L
  client_config p password tls limiter = record {
    url = p.spec.url;
    bind_dn = p.spec.bind_dn;
    bind_password = password;
    insecure_skip_tls = p.spec.insecure_skip_tls;
    tls_config = tls;
    user_search_base = p.spec.user_search_base;
    group_search_base = p.spec.group_search_base;
    username_attribute = p.spec.username_attribute;
    directory_type = p.spec.directory_type;
    page_size = 0;
    limiter = limiter;
  }

  -- client: a client is its configuration, which ldapclient.New stores.
  unfoldable pub new_client : LdapProvider → Action W (GoError E) (Config T L)
  new_client p = do
    password ← wrapping "bind password secret: " "" (secret_value p.spec.bind_password_secret_ref)
    tls ← tls_config p
    limiter ← reading (limiter_for get_limiter p.meta.name)
    pure (client_config p password tls limiter)

  -- Grouper; `sort` is that of the sort.Strings that GetGroupMembers calls.
  unfoldable pub grouper : Sorter String → GrouperResolver W E
  grouper s p = do cfg ← new_client p; pure (get_group_members lib cfg s)

  unfoldable pub pinger : PingerResolver W E
  pinger p = do cfg ← new_client p; pure (ping lib cfg)
