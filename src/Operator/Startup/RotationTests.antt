-- ===== src/Operator/Startup/RotationTests.antt =====
-- A rotated secret, in the operator that main puts together over the cache of one provider.
use directory_rbac_operator.Base.{ℕ, ◌≡◌, ◌↔◌, refl, none, [], ◌∷◌}
use directory_rbac_operator.Go.Action.{ok}
use directory_rbac_operator.Go.Sort.{insertion}
use directory_rbac_operator.Kube.Objects.{key_of, Secret}
use directory_rbac_operator.Controller.Sample.{World, ApiError, runtime, refuse}
use directory_rbac_operator.Controller.Binding.Tests.{provider, binding, binding_key, empty}
use directory_rbac_operator.Controller.Provider.Tests.{finalizers}
use directory_rbac_operator.Controller.Factory.Tests.{lib, certs}
use directory_rbac_operator.Controller.Watches.Reach.{DependsOn}
use directory_rbac_operator.Controller.Watches.Tests.{
  watching, providers, bindings, cluster_bindings,
}
use directory_rbac_operator.Operator.Startup.{
  Flags, default_flags, Services, binding_spec, cluster_binding_spec,
}
use directory_rbac_operator.Operator.Startup.Rotation.{
  Triggers, source_namespace, secret-Triggers_iff,
}
use directory_rbac_operator.Operator.Tests.{rates}

abbrev services : Services World ApiError ℕ ℕ
services = record {
  client = watching;
  runtime = runtime;
  list_providers = λ limit. refuse;
  list_bindings_in = λ namespace. refuse;
  list_cluster_bindings = refuse;
  indexer = record {
    index_bindings = λ field f. refuse;
    index_cluster_bindings = λ field f. refuse;
    index_providers = λ field f. refuse;
  };
  complete = λ spec. refuse;
  complete_webhook = λ v. refuse;
  complete_cluster_webhook = λ v. refuse;
  add_healthz_check = λ name check. refuse;
  add_readyz_check = λ name check. refuse;
  healthz_ping = λ w. (ok tt, w);
  start = refuse;
  limiters = λ w. w.limiters;
  set_limiters = λ l w. record w { limiters = l };
}

abbrev flags : Flags
flags = record default_flags { secret_namespace = "ldap" }

abbrev rotated : Secret
rotated =
    let meta = binding.meta in
    record { meta = record meta { name = "ldap-bind"; namespace = "ldap" }; entries = λ k. none }

secret-Triggers_iff_example :
    (Triggers
        (binding_spec lib certs rates insertion finalizers services flags).watches
        rotated
        empty
        binding_key
      ↔ (("ldap" ≡ source_namespace lib certs rates insertion finalizers services flags)
          × DependsOn watching
              (λ w. tt)
              providers
              bindings
              (λ b. key_of b.meta)
              (λ b. b.spec.provider_ref)
              tt
              "ldap-bind"
              binding_key))
    × (Triggers
          (cluster_binding_spec lib certs rates insertion finalizers services flags).watches
          rotated
          empty
          binding_key
        ↔ (("ldap" ≡ source_namespace lib certs rates insertion finalizers services flags)
            × DependsOn watching
                (λ w. tt)
                providers
                cluster_bindings
                (λ b. key_of b.meta)
                (λ b. b.spec.provider_ref)
                tt
                "ldap-bind"
                binding_key))
secret-Triggers_iff_example =
    secret-Triggers_iff lib certs rates insertion finalizers services flags (λ w. tt) providers
      bindings cluster_bindings rotated empty (provider ∷ []) binding_key refl
