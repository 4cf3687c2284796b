-- ===== src/Controller/Readiness/Tests.antt =====
-- The readiness of the operator, and its agreement with the reconciler of providers.
use mathlib.Core.List.{Memᴰ}
use directory_rbac_operator.Base.{
  inl, suc, sym, ap, ◌≡◌, ◌⊎◌, refl, Option, none, some, List, [], ◌∷◌,
}
use directory_rbac_operator.Go.Action.{ok}
use directory_rbac_operator.Kube.Objects.{key_of}
use directory_rbac_operator.Api.{LdapProvider}
use directory_rbac_operator.Controller.Sample.{World, ApiError, runtime, runtime_laws}
use directory_rbac_operator.Controller.Provider.{reconcile}
use directory_rbac_operator.Controller.Stored.{Refused}
use directory_rbac_operator.Controller.Provider.Tests.{
  cluster_with, reconciler, live, provider_store, runtime_keeps, live-IsExplicit, live-IsChecked,
}
use directory_rbac_operator.Controller.Readiness.{
  LdapProviderReadiness, readiness_cache_timeout, check,
}
use directory_rbac_operator.Controller.Readiness.Health.{reconcile-Serves}

abbrev readiness : LdapProviderReadiness World ApiError
readiness = record { list = λ limit w. (ok (live ∷ []), w); timeout = readiness_cache_timeout }

-- A listing of the one provider, as it is stored.
abbrev of_stored : Option LdapProvider → List LdapProvider
of_stored none = []
of_stored (some p) = p ∷ []

abbrev following : LdapProviderReadiness World ApiError
following = record {
  list = λ limit w. (ok (of_stored (w.providers (key_of live.meta))), w);
  timeout = readiness_cache_timeout;
}

-- What the run against a directory that answers leaves behind, some time later.
abbrev later : World → World
later w = record w { clock = suc w.clock }

of_stored_is : (o : Option LdapProvider) (q : LdapProvider) → Memᴰ q (of_stored o) → o ≡ some q
of_stored_is none q m = elim m [ ]
of_stored_is (some p) q (Memᴰ.head e) = ap some (sym e)
of_stored_is (some p) q (Memᴰ.tail m) = elim m [ ]

reconcile-Serves_example :
    let (res, after) = reconcile reconciler (key_of live.meta) (cluster_with live) in
    Refused res ⊎ ((check runtime following (later after)).0 ≡ ok tt)
reconcile-Serves_example =
    let after = (reconcile reconciler (key_of live.meta) (cluster_with live)).1 in
    reconcile-Serves reconciler provider_store runtime_laws runtime_keeps (key_of live.meta)
      (cluster_with live) (cluster_with live) (later after) live (λ w. (ok tt, w)) following
      (of_stored (after.providers (key_of live.meta))) live-IsChecked live-IsExplicit refl refl refl
      refl (λ q m. inl (of_stored_is _ q m))
