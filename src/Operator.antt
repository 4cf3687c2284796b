-- ===== src/Operator.antt =====
-- main.go: the parts of the operator, put together. They share the manager's client, one factory of connections and
-- one set of rate limiters, which lives in the world.
pub mod Budget
pub mod Release
pub mod Throttle
pub mod Startup
pub mod Tests
mod ThrottleTests
use directory_rbac_operator.Base.{String, Option, some, List}
use directory_rbac_operator.Go.Action.{Action, Effect}
use directory_rbac_operator.Go.Sort.{Sorter}
use directory_rbac_operator.Kube.Objects.{Duration}
use directory_rbac_operator.Kube.Client.{Client}
use directory_rbac_operator.Kube.Runtime.{Runtime}
use directory_rbac_operator.Api.{LdapProvider}
use directory_rbac_operator.Ldapclient.Library.{Library}
use directory_rbac_operator.Ldapclient.Limiters.{RateLibrary, Limiters, get, delete}
use directory_rbac_operator.Controller.Binding.Status.{RbacGroupBindingReconciler}
use directory_rbac_operator.Controller.ClusterBinding.Status.{ClusterRbacGroupBindingReconciler}
use directory_rbac_operator.Controller.Provider.{LdapProviderReconciler, FinalizerLibrary}
use directory_rbac_operator.Controller.Factory.{CertificateLibrary, GrouperFactory, grouper, pinger}
use directory_rbac_operator.Controller.Factory.Sources.{wired}
use directory_rbac_operator.Controller.Readiness.{
  LdapProviderReadiness, new_ldap_provider_readiness,
}

-- What main has of the manager, with the variable `limiters` that several parts point to.
pub record Manager (W E R L : Type 0) : Type 0 where
  pub client : Client W E
  pub runtime : Runtime W E
  pub list_providers : Duration → Action W E (List LdapProvider)
  pub secret_namespace : String
  pub limiters : W → Limiters R L
  pub set_limiters : Limiters R L → W → W

module _ {W E C T R L N P : Type 0} (lib : Library W E C T L N) (certs : CertificateLibrary T P)
    (rates : RateLibrary W R L) (s : Sorter String) (finalizers : FinalizerLibrary)
    (mgr : Manager W E R L) where
  -- Get and Delete of the shared limiters.
  unfoldable pub get_limiter : String → W → L × W
  get_limiter name w =
      let (limiter, (limiters, w')) = get rates name (mgr.limiters w) w in
      (limiter, mgr.set_limiters limiters w')

  unfoldable pub delete_limiter : String → Effect W
  delete_limiter name w = mgr.set_limiters (delete rates name (mgr.limiters w)) w

  unfoldable pub grouper_factory : GrouperFactory W E L
  grouper_factory = record {
    client = mgr.client;
    secret_namespace = mgr.secret_namespace;
    get_limiter = some get_limiter;
  }

  unfoldable pub rbac_group_binding_reconciler : RbacGroupBindingReconciler W E
  rbac_group_binding_reconciler = wired lib certs grouper_factory s mgr.runtime

  unfoldable pub cluster_rbac_group_binding_reconciler : ClusterRbacGroupBindingReconciler W E
  cluster_rbac_group_binding_reconciler = record {
    client = mgr.client;
    runtime = mgr.runtime;
    grouper = grouper lib certs grouper_factory s;
  }

  unfoldable pub ldap_provider_reconciler : LdapProviderReconciler W E
  ldap_provider_reconciler = record {
    client = mgr.client;
    runtime = mgr.runtime;
    pinger = pinger lib certs grouper_factory;
    forget_limiter = some delete_limiter;
    finalizers = finalizers;
  }

  unfoldable pub readiness : LdapProviderReadiness W E
  readiness = new_ldap_provider_readiness mgr.list_providers
