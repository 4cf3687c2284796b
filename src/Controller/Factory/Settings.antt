-- ===== src/Controller/Factory/Settings.antt =====
-- internal/controller/grouperfactory.go: what a client that was built is configured with.
use directory_rbac_operator.Base.{
  ◌≡◌, refl, sym, subst, ap, ◌∙◌, String, Bool, true, false, Option, none, some,
}
use directory_rbac_operator.Go.Errors.{foreign}
use directory_rbac_operator.Go.Action.{
  ok, ok≢err, ok-injective, pure, fail, reading, ◌>>=◌, call, map_err, wrapping, with_error-ok,
}
use directory_rbac_operator.Go.Action.Bind.{>>=-eq_ok}
use directory_rbac_operator.Kube.Objects.{Secret}
use directory_rbac_operator.Kube.Client.{SecretStore}
use directory_rbac_operator.Api.{LdapProvider, SecretKeyRef}
use directory_rbac_operator.Ldapclient.Library.{Library, Config}
use directory_rbac_operator.Ldapclient.Client
use directory_rbac_operator.Ldapclient.Client.{or_system}
use directory_rbac_operator.Controller.Factory.{
  CertificateLibrary, GrouperFactory, ca_secret_ref, secret_key, on_value, secret_value, on_pool,
  on_ca, tls_config, client_config, new_client,
}
use directory_rbac_operator.Controller.Factory.Frame.{secret_value-Keeps}

module _ {W E C T L N P : Type 0} (lib : Library W E C T L N) (certs : CertificateLibrary T P)
    (f : GrouperFactory W E L) (store : SecretStore f.client) where
  open store use {secrets}

  -- The entry that a reference points at, as it is stored.
  pub record Holds (w : W) (ref : SecretKeyRef) (value : String) : Type 0 where
    pub secret : Secret
    pub is_stored : secrets w (secret_key lib certs f ref) ≡ some secret
    pub has_entry : secret.entries ref.key ≡ some value

  -- Which roots a handshake trusts: the system's where no CA is named, or those of the CA that is stored and no other.
  pub data Trusts (w : W) (ref : Option SecretKeyRef) (chosen : T) : Type 0 where
    the_system : ref ≡ none → chosen ≡ lib.system_tls → Trusts w ref chosen
    the_ca :
        (ca : SecretKeyRef) (ca_pem : String) (pool : P)
        → ref ≡ some ca
        → Holds w ca ca_pem
        → certs.append_certs_from_pem certs.new_cert_pool ca_pem ≡ (pool, true)
        → chosen ≡ certs.with_root_cas pool
        → Trusts w ref chosen

  -- The configuration is that of the provider's specification, with the password and the CA that are stored.
  pub record IsConfigured (p : LdapProvider) (w : W) (cfg : Config T L) : Type 0 where
    pub has_password : Holds w p.spec.bind_password_secret_ref cfg.bind_password
    pub trust : Trusts w (ca_secret_ref p.spec.tls_config) (Client.tls_config lib cfg)
    pub same_url : cfg.url ≡ p.spec.url
    pub same_bind_dn : cfg.bind_dn ≡ p.spec.bind_dn
    pub same_insecure_skip_tls : cfg.insecure_skip_tls ≡ p.spec.insecure_skip_tls
    pub same_user_search_base : cfg.user_search_base ≡ p.spec.user_search_base
    pub same_group_search_base : cfg.group_search_base ≡ p.spec.group_search_base
    pub same_username_attribute : cfg.username_attribute ≡ p.spec.username_attribute
    pub same_directory_type : cfg.directory_type ≡ p.spec.directory_type
    -- the default size of pages
    pub default_pages : cfg.page_size ≡ 0

  on_value-ok :
      (ref : SecretKeyRef) (o : Option String) (w : W) (value : String)
      → (on_value lib certs f ref o w).0 ≡ ok value
      → o ≡ some value
  unfolding on_value pure fail
  on_value-ok ref none w value h = absurd (ok≢err (sym h))
  on_value-ok ref (some v) w value h = ap some (ok-injective h)

  secret_value-Holds :
      (ref : SecretKeyRef) (w : W) (value : String)
      → (secret_value lib certs f ref w).0 ≡ ok value
      → Holds w ref value
  unfolding secret_value call map_err
  secret_value-Holds ref w value h =
      let path = >>=-eq_ok _ _ w value h in
      record {
        secret = path.value;
        is_stored = store.get_secret-stored _ w _ (with_error-ok foreign _ path.passed);
        has_entry = on_value-ok ref _ _ value (sym (ap (λ m. m.0) path.goes_on) ∙ h);
      }

  Holds-keeps :
      (w w' : W) (ref : SecretKeyRef) (value : String)
      → secrets w' ≡ secrets w
      → Holds w' ref value
      → Holds w ref value
  Holds-keeps w w' ref value same h = record {
    secret = h.secret;
    is_stored = ap (λ v. v (secret_key lib certs f ref)) (sym same) ∙ h.is_stored;
    has_entry = h.has_entry;
  }

  -- A pool that was accepted, and the configuration made from it.
  on_pool-ok :
      (ref : SecretKeyRef) (answer : P × Bool) (w : W) (t : Option T)
      → (on_pool lib certs f ref answer w).0 ≡ ok t
      → (answer ≡ (answer.0, true)) × (t ≡ some (certs.with_root_cas answer.0))
  unfolding on_pool pure fail
  on_pool-ok ref (pool, true) w t h = (refl, sym (ok-injective h))
  on_pool-ok ref (pool, false) w t h = absurd (ok≢err (sym h))

  on_ca-Trusts :
      (ref : Option SecretKeyRef) (w : W) (t : Option T) (cfg : Config T L)
      → cfg.tls_config ≡ t
      → (on_ca lib certs f ref w).0 ≡ ok t
      → Trusts w ref (Client.tls_config lib cfg)
  unfolding on_ca pure Client.tls_config or_system wrapping map_err
  on_ca-Trusts none w t cfg chosen h =
      Trusts.the_system refl (ap (or_system lib cfg) (chosen ∙ sym (ok-injective h)))
  on_ca-Trusts (some ca) w t cfg chosen h =
      let path = >>=-eq_ok _ _ w t h in
      let held = secret_value-Holds ca w path.value (with_error-ok _ _ path.passed) in
      let (accepted, is_made) = on_pool-ok ca _ _ t (sym (ap (λ m. m.0) path.goes_on) ∙ h) in
      Trusts.the_ca ca path.value _ refl held accepted (ap (or_system lib cfg) (chosen ∙ is_made))

  Trusts-keeps :
      (w w' : W) (ref : Option SecretKeyRef) (t : T)
      → secrets w' ≡ secrets w
      → Trusts w' ref t
      → Trusts w ref t
  Trusts-keeps w w' ref t same (Trusts.the_system q c) = Trusts.the_system q c
  Trusts-keeps w w' ref t same (Trusts.the_ca ca ca_pem pool q held accepted c) =
      Trusts.the_ca ca ca_pem pool q (Holds-keeps w w' ca ca_pem same held) accepted c

  -- A client that is built has the settings of its provider, the bind password that is stored under the provider's
  -- reference, and trusts the CA that is stored under its reference and nothing else; without such a reference it
  -- trusts the roots of the system.
  pub new_client-IsConfigured :
      (p : LdapProvider) (w : W) (cfg : Config T L)
      → (new_client lib certs f p w).0 ≡ ok cfg
      → IsConfigured p w cfg
  unfolding new_client tls_config client_config reading pure ◌>>=◌ wrapping map_err
  new_client-IsConfigured p w cfg h =
      let path =
        >>=-eq_ok
          (wrapping "bind password secret: " ""
            (secret_value lib certs f p.spec.bind_password_secret_ref))
          _ w cfg h in
      let read = with_error-ok _ _ path.passed in
      let w' = (secret_value lib certs f p.spec.bind_password_secret_ref w).1 in
      let rest = sym (ap (λ m. m.0) path.goes_on) ∙ h in
      let chosen = >>=-eq_ok (tls_config lib certs f p) _ w' cfg rest in
      let made = ok-injective (sym (ap (λ m. m.0) chosen.goes_on) ∙ rest) in
      let same =
        (secret_value-Keeps lib certs f secrets store.get_secret-Keeps
            p.spec.bind_password_secret_ref).keeps
          w in
      record {
        has_password =
            subst (Holds w p.spec.bind_password_secret_ref) (ap (λ c. c.bind_password) made)
              (secret_value-Holds _ w _ read);
        trust =
            Trusts-keeps w w' _ _ same (
              on_ca-Trusts _ w' chosen.value cfg (sym (ap (λ c. c.tls_config) made)) chosen.passed);
        same_url = sym (ap (λ c. c.url) made);
        same_bind_dn = sym (ap (λ c. c.bind_dn) made);
        same_insecure_skip_tls = sym (ap (λ c. c.insecure_skip_tls) made);
        same_user_search_base = sym (ap (λ c. c.user_search_base) made);
        same_group_search_base = sym (ap (λ c. c.group_search_base) made);
        same_username_attribute = sym (ap (λ c. c.username_attribute) made);
        same_directory_type = sym (ap (λ c. c.directory_type) made);
        default_pages = sym (ap (λ c. c.page_size) made);
      }
