-- ===== src/Controller/Provider/Tests.antt =====
-- The reconciler of providers on a small cluster, with a provider that nothing refers to.
use directory_rbac_operator.Base.{pos, ◌≡◌, ◌⊎◌, arith, refl, true, false, none, some, []}
use directory_rbac_operator.Go.Errors.{foreign}
use directory_rbac_operator.Go.Action.{ok, err, pure}
use directory_rbac_operator.Kube.Objects.{Timestamp, key_of}
use directory_rbac_operator.Kube.Client.{Client, ProviderStore}
use directory_rbac_operator.Api.{LdapProvider}
use directory_rbac_operator.Controller.Laws.{KeepsView}
use directory_rbac_operator.Controller.Sample.{
  World, no_limiters, ApiError, refused, client, runtime, runtime_laws, put, put_self,
}
use directory_rbac_operator.Controller.Sample.Laws.{same}
use directory_rbac_operator.Controller.Stored.{Refused}
use directory_rbac_operator.Controller.Provider.{
  LdapProviderReconciler, FinalizerLibrary, protect, finalize, reconcile,
}
use directory_rbac_operator.Controller.Provider.Outcome.{HasStatus, IsVerified, IsInvalid}
use directory_rbac_operator.Controller.Provider.Health.{
  IsChecked, FailsWith, reconcile-IsVerified, reconcile-IsInvalid,
}
use directory_rbac_operator.Controller.Provider.Transport.{IsExplicit, IsImplicit}
use directory_rbac_operator.Controller.Provider.Finalizer.{ListsKeep, IsUnused, finalize-IsUnused}

abbrev pub provider : LdapProvider
provider = record {
  meta = record {
    name = "corp-ad";
    namespace = "";
    uid = "u1";
    resource_version = "1";
    generation = 3;
    deletion_timestamp = some 5;
    owner_references = [];
    finalizers = [];
  };
  spec = record {
    url = "ldaps://ad.corp.local:636";
    bind_dn = "cn=svc";
    bind_password_secret_ref = record { name = "ldap-bind"; key = "password" };
    tls_config = none;
    insecure_skip_tls = false;
    user_search_base = "ou=people";
    group_search_base = "ou=groups";
    sync_interval = pos 60000000000;
    username_attribute = "uid";
    directory_type = "OpenLDAP";
  };
  status = record { observed_generation = 1; conditions = []; last_verified_time = none };
}

-- Every provider has the finalizer.
abbrev pub finalizers : FinalizerLibrary
finalizers = record {
  contains_finalizer = λ p f. true;
  add_finalizer = λ p f. p;
  remove_finalizer = λ p f. p;
}

abbrev pub listing : Client World ApiError
listing = record client {
  list_bindings_of = λ name limit w. (ok [], w);
  list_cluster_bindings_of = λ name limit w. (ok [], w);
}

abbrev pub reconciler : LdapProviderReconciler World ApiError
reconciler = record {
  client = listing;
  runtime = runtime;
  pinger = λ p w. (ok (λ w'. (ok tt, w')), w);
  forget_limiter = none;
  finalizers = finalizers;
}

lists_keep : ListsKeep listing (λ w. w.providers)
lists_keep = record {
  list_bindings_of-Keeps = λ name limit. record { keeps = λ w. refl };
  list_cluster_bindings_of-Keeps = λ name limit. record { keeps = λ w. refl };
}

pub runtime_keeps : KeepsView runtime (λ w. w.providers)
runtime_keeps = record {
  now-keeps = λ w. refl;
  set_status_condition-keeps = λ cs c w. refl;
  record_event-keeps = λ e w. refl;
  observe-keeps = λ m w. refl;
}

abbrev pub cluster_with : LdapProvider → World
cluster_with p = record {
  role_bindings = λ key. none;
  bindings = λ key. none;
  providers = put (key_of p.meta) (some p) (λ key. none);
  secrets = λ key. none;
  full = false;
  events = [];
  metrics = [];
  meter = record { dials = 0; grants = 0 };
  clock = 7;
  secured = false;
  leaks = 0;
  limiters = no_limiters;
}

abbrev cluster : World
cluster = cluster_with provider

finalize-IsUnused_example :
    ((finalize reconciler provider cluster).1.providers ≡ cluster.providers)
    ⊎ IsUnused listing provider cluster
finalize-IsUnused_example =
    finalize-IsUnused reconciler (λ w. w.providers) lists_keep runtime_keeps provider cluster

-- One that is not being deleted, whose URL is ldaps.
abbrev pub live : LdapProvider
live =
    let meta = provider.meta in record provider { meta = record meta { deletion_timestamp = none } }

-- One that makes no choice.
abbrev undecided : LdapProvider
undecided =
    let spec = live.spec in record live { spec = record spec { url = "ldap://ad.corp.local" } }

-- A directory that refuses the bind.
abbrev pub refusing : LdapProviderReconciler World ApiError
refusing = record reconciler { pinger = λ p w. (ok (λ w'. (err (foreign refused), w')), w) }

abbrev pub provider_store : ProviderStore listing
provider_store = record {
  providers = λ w. w.providers;
  update_provider_status-stored = λ p w h. (p, put_self (key_of p.meta) (some p) w.providers, refl);
}

pub live-IsExplicit : IsExplicit live.spec
live-IsExplicit = IsExplicit.ldaps refl

pub live-IsChecked :
    IsChecked reconciler (key_of live.meta) (cluster_with live) live (cluster_with live)
unfolding protect pure
live-IsChecked = record {
  read = live;
  found = refl;
  is_live = refl;
  protected = refl;
  reached = refl;
}

pub refusing-IsChecked :
    IsChecked refusing (key_of live.meta) (cluster_with live) live (cluster_with live)
unfolding protect pure
refusing-IsChecked = record {
  read = live;
  found = refl;
  is_live = refl;
  protected = refl;
  reached = refl;
}

undecided-IsChecked :
    IsChecked reconciler
      (key_of undecided.meta)
      (cluster_with undecided)
      undecided
      (cluster_with undecided)
unfolding protect pure
undecided-IsChecked = record {
  read = undecided;
  found = refl;
  is_live = refl;
  protected = refl;
  reached = refl;
}

undecided-IsImplicit : IsImplicit undecided.spec
undecided-IsImplicit = record {
  not_ldaps = refl;
  not_plain_text = refl;
  without_ca = λ tls h. ground arith;
}

pub fails : FailsWith refusing live (cluster_with live) (foreign refused)
fails = FailsWith.no_answer (λ w. (err (foreign refused), w)) refl refl

reconcile-IsVerified_example :
    let (res, after) = reconcile reconciler (key_of live.meta) (cluster_with live) in
    Refused res
    ⊎ ((res ≡ ok (record { requeue_after = pos 60000000000 }))
        × HasStatus reconciler provider_store
            (key_of live.meta)
            after
            (IsVerified reconciler provider_store live (cluster_with live).clock))
reconcile-IsVerified_example =
    reconcile-IsVerified reconciler provider_store runtime_laws runtime_keeps (key_of live.meta)
      (cluster_with live) (cluster_with live) live (λ w. (ok tt, w)) live-IsChecked live-IsExplicit
      refl refl

abbrev clock : World → Timestamp
clock w = w.clock

clock_keeps : KeepsView runtime clock
clock_keeps = record {
  now-keeps = λ w. refl;
  set_status_condition-keeps = λ cs c w. refl;
  record_event-keeps = λ e w. refl;
  observe-keeps = λ m w. refl;
}

reconcile-IsInvalid_example :
    let (res, after) = reconcile reconciler (key_of undecided.meta) (cluster_with undecided) in
    (after.clock ≡ 7)
    × (Refused res
        ⊎ ((res ≡ ok (record { requeue_after = pos 0 }))
            × HasStatus reconciler provider_store
                (key_of undecided.meta)
                after
                (IsInvalid reconciler provider_store undecided)))
reconcile-IsInvalid_example =
    reconcile-IsInvalid reconciler provider_store runtime_laws runtime_keeps clock clock_keeps
      (λ p. same _ _ (λ w. refl)) (key_of undecided.meta) (cluster_with undecided)
      (cluster_with undecided) undecided undecided-IsChecked undecided-IsImplicit
