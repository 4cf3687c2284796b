-- ===== src/Controller/Factory/Tests.antt =====
-- Clients that are built from the providers of the small cluster, over a directory with one user in every group.
use directory_rbac_operator.Base.{
  ℕ, suc, String, ◌≡◌, ◌⊎◌, refl, Bool, true, false, not, ◌==◌, Option, none, some, [], ◌∷◌,
  if◌then◌else◌,
}
use directory_rbac_operator.Go.Action.{
  ok, ◌>>=◌, pure, call, map_err, wrapping, reading, with_error,
}
use directory_rbac_operator.Go.Sort.{insertion}
use directory_rbac_operator.Kube.Objects.{Secret}
use directory_rbac_operator.Api.{LdapProvider}
use directory_rbac_operator.Ldapclient.Library.{Library, Config}
use directory_rbac_operator.Ldapclient.Client.{ping}
use directory_rbac_operator.Ldapclient.Frame.{CallsKeep, AllCallsKeep}
use directory_rbac_operator.Ldapclient.Secrecy.{Encryption}
use directory_rbac_operator.Controller.Sample.{World, ApiError, not_found, client, runtime, put}
use directory_rbac_operator.Controller.Sample.Laws.{
  same, client_laws, keeps_role_bindings, secret_store, get_secret-keeps_role_bindings,
}
use directory_rbac_operator.Controller.Binding.Reconcile.{reconcile}
use directory_rbac_operator.Controller.Binding.Tests.{provider, binding_key, empty}
use directory_rbac_operator.Controller.Factory.{
  CertificateLibrary, GrouperFactory, ca_secret_ref, limiter_for, on_value, secret_value, on_pool,
  on_ca, tls_config, client_config, new_client, pinger,
}
use directory_rbac_operator.Controller.Factory.Settings.{IsConfigured, new_client-IsConfigured}
use directory_rbac_operator.Controller.Factory.Secrecy.{IsCallOf, call-leaked}
use directory_rbac_operator.Controller.Factory.Sources.{
  wired, IsFromDirectory, reconcile-IsFromDirectory,
}

unfoldable pub is_some : {A : Type 0} → Option A → Bool
is_some none = false
is_some (some _) = true

-- A TLS configuration is the text of its roots.
abbrev pub lib : Library World ApiError (Unit {0}) String ℕ String
lib = record {
  dial_url = λ url t w. (ok tt, record w { secured = is_some t });
  start_tls = λ c t w. (ok tt, record w { secured = true });
  set_timeout = λ c d w. w;
  bind =
      λ c dn password w. (ok tt, record w { leaks = if w.secured then w.leaks else suc w.leaks });
  search = λ c r w. (ok (record { entries = "alice" ∷ []; referrals = [] }), w);
  search_with_paging = λ c r n w. (ok (record { entries = "alice" ∷ []; referrals = [] }), w);
  close = λ c w. w;
  attribute_values = λ n name. n ∷ [];
  attribute_value = λ n name. n;
  is_no_such_object = λ e. elim e [ not_found ↦ true | _ ↦ false ];
  is_referral = λ e. false;
  escape_filter = λ s. s;
  scope_base_object = 0;
  scope_whole_subtree = 2;
  never_deref_aliases = 0;
  system_tls = "system";
  wait = λ l w. (ok tt, w);
  time_left = λ w. (none, w);
  quote = λ s. s;
}

abbrev pub certs : CertificateLibrary String String
certs = record {
  new_cert_pool = "";
  append_certs_from_pem = λ pool pem. (pem, not (pem == ""));
  with_root_cas = λ pool. pool;
}

abbrev factory : GrouperFactory World ApiError ℕ
factory = record { client = client; secret_namespace = "ldap"; get_limiter = none }

abbrev secret : String → String → Secret
secret key value = record {
  meta = provider.meta;
  entries = λ k. if k == key then some value else none;
}

-- The cluster with the secrets that `pinned` names.
abbrev pub cluster : World
cluster = record empty {
  secrets =
      put (record { namespace = "ldap"; name = "ldap-bind" }) (some (secret "password" "hunter"))
        (put (record { namespace = "ldap"; name = "corp-ca" }) (some (secret "ca.crt" "corp root"))
          (λ key. none));
}

-- A provider that is upgraded by StartTLS, against a CA of its own.
abbrev pub pinned : LdapProvider
pinned =
    let spec = provider.spec in
    record provider {
      spec = record spec {
        url = "ldap://ad.corp.local";
        tls_config =
            some (record { ca_secret_ref = some (record { name = "corp-ca"; key = "ca.crt" }) });
      };
    }

abbrev cfg : Config String ℕ
unfolding client_config
cfg = client_config lib certs factory pinned "hunter" (some "corp root") none

built : (new_client lib certs factory pinned cluster).0 ≡ ok cfg
unfolding new_client client_config tls_config ca_secret_ref secret_value on_value on_ca on_pool
    limiter_for ◌>>=◌ pure call map_err wrapping reading with_error
built = refl

new_client-IsConfigured_example : IsConfigured lib certs factory secret_store pinned cluster cfg
new_client-IsConfigured_example =
    new_client-IsConfigured lib certs factory secret_store pinned cluster cfg built

calls_keep :
    {V : Type 0} (view : World → V)
    → ((w : World) (b : Bool) → view (record w { secured = b }) ≡ view w)
    → CallsKeep lib view
calls_keep view h = record {
  start_tls-Keeps = λ c t. same _ _ (λ w. h w true);
  wait-Keeps = λ l. same _ _ (λ w. refl);
  queries = record {
    set_timeout-keeps = λ c d w. refl;
    search-Keeps = λ c r. same _ _ (λ w. refl);
    search_with_paging-Keeps = λ c r n. same _ _ (λ w. refl);
    time_left-keeps = λ w. refl;
  };
}

encryption : Encryption lib (λ c w. w.secured ≡ true) (λ w. w.leaks)
unfolding is_some
encryption = record {
  dial_url-IsTls = λ url t w c ldaps h. refl;
  start_tls-IsTls = λ c t w h. refl;
  set_timeout-IsTls = λ c d w h. h;
  time_left-IsTls = λ c w h. h;
  bind-secret = λ c dn password w h. rw h;
  dial_url-Keeps = λ url t. same _ _ (λ w. refl);
  close-keeps = λ c w. refl;
  calls = calls_keep _ (λ w b. refl);
}

answered : (pinger lib certs factory pinned cluster).0 ≡ ok (ping lib cfg)
unfolding pinger new_client client_config tls_config ca_secret_ref secret_value on_value on_ca
    on_pool limiter_for ◌>>=◌ pure call map_err wrapping reading with_error
answered = refl

call-leaked_example : (ping lib cfg cluster).1.leaks ≡ 0
call-leaked_example =
    call-leaked lib certs factory insertion secret_store (λ c w. w.secured ≡ true) (λ w. w.leaks)
      encryption pinned cluster cluster (Unit {0}) (ping lib cfg) refl
      (IsCallOf.check_of (ping lib cfg) answered)

all_keep : AllCallsKeep lib (λ w. w.role_bindings)
all_keep = record {
  dialling = record {
    dial_url-Keeps = λ url t. same _ _ (λ w. refl);
    close-keeps = λ c w. refl;
    calls = calls_keep _ (λ w b. refl);
  };
  bind-Keeps = λ c dn password. same _ _ (λ w. refl);
}

no_limiter :
    (name : String) (w : World)
    → (limiter_for factory.get_limiter name w).1.role_bindings ≡ w.role_bindings
unfolding limiter_for
no_limiter name w = refl

reconcile-IsFromDirectory_example :
    ((reconcile (wired lib certs factory insertion runtime) binding_key cluster).1.role_bindings
      ≡ cluster.role_bindings)
    ⊎ IsFromDirectory lib certs factory insertion runtime client_laws secret_store
        keeps_role_bindings get_secret-keeps_role_bindings no_limiter all_keep binding_key cluster
reconcile-IsFromDirectory_example =
    reconcile-IsFromDirectory lib certs factory insertion runtime client_laws secret_store
      keeps_role_bindings get_secret-keeps_role_bindings no_limiter all_keep binding_key cluster
