-- ===== src/Operator/Startup.antt =====
-- main.go: what main registers with the manager before it starts it, and the code with which the process ends.
pub mod Registered
pub mod Rotation
mod Tests
mod RotationTests
use directory_rbac_operator.Base.{ℕ, pos, String, Bool, true, false, none, List, if◌then◌else◌}
use directory_rbac_operator.Go.Errors.{GoError}
use directory_rbac_operator.Go.Action.{Result, ok, err, Action, pure, perform, ◌>>=◌, ◌>>◌, call}
use directory_rbac_operator.Go.Sort.{Sorter}
use directory_rbac_operator.Kube.Objects.{Duration}
use directory_rbac_operator.Kube.Client.{Client, FieldIndexer}
use directory_rbac_operator.Kube.Runtime.{Runtime}
use directory_rbac_operator.Api.{LdapProvider, RbacGroupBinding, ClusterRbacGroupBinding}
use directory_rbac_operator.Ldapclient.Library.{Library}
use directory_rbac_operator.Ldapclient.Limiters.{RateLibrary, Limiters}
use directory_rbac_operator.Webhook.Setup.{
  Validator, rbac_group_binding_validator, cluster_rbac_group_binding_validator,
}
use directory_rbac_operator.Controller.Provider.{FinalizerLibrary}
use directory_rbac_operator.Controller.Factory.{CertificateLibrary}
use directory_rbac_operator.Controller.Readiness.{check}
use directory_rbac_operator.Controller.Watches.{setup_indexers}
use directory_rbac_operator.Controller.Setup.{
  ControllerSpec, binding_controller, cluster_binding_controller, provider_controller,
}
use directory_rbac_operator.Operator.{
  Manager, rbac_group_binding_reconciler, cluster_rbac_group_binding_reconciler,
  ldap_provider_reconciler, readiness,
}

-- The variables that main binds to flags, once flag.Parse has run.
pub record Flags : Type 0 where
  pub metrics_addr : String
  pub probe_addr : String
  pub enable_leader_election : Bool
  pub secret_namespace : String
  pub enable_validating_webhook : Bool

-- Their values where the command line does not set them.
abbrev pub default_flags : Flags
default_flags = record {
  metrics_addr = ":8080";
  probe_addr = ":8081";
  enable_leader_election = false;
  secret_namespace = "directory-rbac-operator-system";
  enable_validating_webhook = false;
}

-- ctrl.Options, less the scheme
pub record ManagerOptions : Type 0 where
  pub metrics_bind_address : String
  pub health_probe_bind_address : String
  pub leader_election : Bool
  pub leader_election_id : String

unfoldable pub manager_options : Flags → ManagerOptions
manager_options flags = record {
  metrics_bind_address = flags.metrics_addr;
  health_probe_bind_address = flags.probe_addr;
  leader_election = flags.enable_leader_election;
  leader_election_id = "directory-rbac-operator.ldaprbac.io";
}

-- A manager: what it gives to the reconcilers, and what can be registered with it. The last two fields are the memory
-- of the process, in which main keeps the limiters.
pub record Services (W E R L : Type 0) : Type 0 where
  pub client : Client W E
  pub runtime : Runtime W E
  pub list_providers : Duration → Action W E (List LdapProvider)
  pub list_bindings_in : String → Action W E (List RbacGroupBinding)
  pub list_cluster_bindings : Action W E (List ClusterRbacGroupBinding)
  pub indexer : FieldIndexer W E
  -- Complete of a controller, and of a webhook for either type
  pub complete : ControllerSpec W E → Action W E (Unit {0})
  pub complete_webhook : Validator W E RbacGroupBinding → Action W E (Unit {0})
  pub complete_cluster_webhook : Validator W E ClusterRbacGroupBinding → Action W E (Unit {0})
  pub add_healthz_check : String → Action W (GoError E) (Unit {0}) → Action W E (Unit {0})
  pub add_readyz_check : String → Action W (GoError E) (Unit {0}) → Action W E (Unit {0})
  -- healthz.Ping
  pub healthz_ping : Action W (GoError E) (Unit {0})
  -- Start, which returns when the process is told to stop or the manager fails
  pub start : Action W E (Unit {0})
  pub limiters : W → Limiters R L
  pub set_limiters : Limiters R L → W → W

module _ {W E C T R L N P : Type 0} (lib : Library W E C T L N) (certs : CertificateLibrary T P)
    (rates : RateLibrary W R L) (s : Sorter String) (finalizers : FinalizerLibrary)
    (srv : Services W E R L) (flags : Flags) where
  abbrev pub mgr : Manager W E R L
  mgr = record {
    client = srv.client;
    runtime = srv.runtime;
    list_providers = srv.list_providers;
    secret_namespace = flags.secret_namespace;
    limiters = srv.limiters;
    set_limiters = srv.set_limiters;
  }

  -- &ldapclient.Limiters{}
  unfoldable pub new_limiters : Limiters R L
  new_limiters = record { rate = rates.of_ℕ 0; burst = pos 0; limiters = none }

  unfoldable pub binding_spec : ControllerSpec W E
  unfolding rbac_group_binding_reconciler binding_controller
  binding_spec =
      binding_controller srv.client flags.secret_namespace
        (rbac_group_binding_reconciler lib certs rates s finalizers mgr)

  unfoldable pub cluster_binding_spec : ControllerSpec W E
  unfolding cluster_rbac_group_binding_reconciler cluster_binding_controller
  cluster_binding_spec =
      cluster_binding_controller srv.client flags.secret_namespace
        (cluster_rbac_group_binding_reconciler lib certs rates s finalizers mgr)

  unfoldable pub provider_spec : ControllerSpec W E
  unfolding ldap_provider_reconciler provider_controller
  provider_spec = provider_controller (ldap_provider_reconciler lib certs rates s finalizers mgr)

  -- setupWebhooks
  unfoldable pub setup_webhooks : Action W (GoError E) (Unit {0})
  unfolding rbac_group_binding_validator cluster_rbac_group_binding_validator
  setup_webhooks = do
    call
        (srv.complete_webhook (rbac_group_binding_validator srv.runtime.quote srv.list_bindings_in))
    call (
        srv.complete_cluster_webhook
          (cluster_rbac_group_binding_validator srv.runtime.quote srv.list_cluster_bindings))

  unfoldable pub maybe_setup_webhooks : Bool → Action W (GoError E) (Unit {0})
  maybe_setup_webhooks true = setup_webhooks
  maybe_setup_webhooks false = pure tt

  -- main from the field indexes to the ready check. Each failure ends the process, so that nothing after it happens.
  unfoldable pub register_all : Action W (GoError E) (Unit {0})
  unfolding setup_indexers new_limiters binding_spec cluster_binding_spec provider_spec
  register_all = do
    setup_indexers srv.indexer
    perform (srv.set_limiters new_limiters)
    call (srv.complete binding_spec)
    call (srv.complete cluster_binding_spec)
    call (srv.complete provider_spec)
    maybe_setup_webhooks flags.enable_validating_webhook
    call (srv.add_healthz_check "healthz" srv.healthz_ping)
    call (
        srv.add_readyz_check "readyz"
          (check srv.runtime (readiness lib certs rates s finalizers mgr)))

  unfoldable pub run_manager : Action W (GoError E) (Unit {0})
  run_manager = do register_all; call srv.start

-- os.Exit(1) on an error, and 0 where main returns.
unfoldable pub exit_code : {X A : Type 0} → Result X A → ℕ
exit_code (ok a) = 0
exit_code (err e) = 1

module _ {W E C T R L N P : Type 0} (lib : Library W E C T L N) (certs : CertificateLibrary T P)
    (rates : RateLibrary W R L) (s : Sorter String) (finalizers : FinalizerLibrary)
    (new_manager : ManagerOptions → Action W E (Services W E R L)) where
  -- main, after flag.Parse
  unfoldable pub main : Flags → W → ℕ × W
  unfolding manager_options exit_code
  main flags w =
      let (result, w') =
        (do
          srv ← call (new_manager (manager_options flags))
          run_manager lib certs rates s finalizers srv flags)
          w in
      (exit_code result, w')
