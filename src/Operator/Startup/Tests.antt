-- ===== src/Operator/Startup/Tests.antt =====
-- Two runs of main: one on a world that only logs what is registered, and the watches on the cache of one provider.
use directory_rbac_operator.Base.{ℕ, pos, String, Bool, true, false, none, List, [], ◌∷◌, ◌++◌}
use directory_rbac_operator.Go.Action.{ok, err, Action}
use directory_rbac_operator.Go.Action.Appends.{Appends}
use directory_rbac_operator.Go.Action.Keeps.{Keeps}
use directory_rbac_operator.Go.Sort.{insertion}
use directory_rbac_operator.Kube.Client.{Client}
use directory_rbac_operator.Kube.Runtime.{Runtime}
use directory_rbac_operator.Ldapclient.Library.{Library}
use directory_rbac_operator.Ldapclient.Limiters.{Limiters}
use directory_rbac_operator.Controller.Sample.{constants}
use directory_rbac_operator.Controller.Setup.{
  rbac_group_bindings, cluster_rbac_group_bindings, ldap_providers,
}
use directory_rbac_operator.Operator.Startup.{Flags, default_flags, Services, ManagerOptions}
use directory_rbac_operator.Operator.Startup.Registered.{
  Registration, index, controller, webhook, health_check, ready_check,
}

-- A process that has registered some things, and may have served.
abbrev Boot : Type 0
Boot = record { log : List Registration; served : Bool; limiters : Limiters ℕ ℕ }

refuse : {A : Type 0} → Action Boot String A
refuse w = (err "refused", w)

abbrev log : Registration → Action Boot String (Unit {0})
log item w = (ok tt, record w { log = w.log ++ item ∷ [] })

client : Client Boot String
client = record {
  is_not_found = λ e. false;
  get_binding = λ key. refuse;
  update_binding_status = λ b. refuse;
  get_cluster_binding = λ key. refuse;
  update_cluster_binding_status = λ b. refuse;
  get_role_binding = λ key. refuse;
  create_role_binding = λ rb. refuse;
  update_role_binding = λ rb. refuse;
  delete_role_binding = λ rb. refuse;
  get_cluster_role_binding = λ key. refuse;
  create_cluster_role_binding = λ rb. refuse;
  update_cluster_role_binding = λ rb. refuse;
  delete_cluster_role_binding = λ rb. refuse;
  get_provider = λ key. refuse;
  update_provider = λ p. refuse;
  update_provider_status = λ p. refuse;
  get_secret = λ key. refuse;
  list_bindings_of = λ name limit. refuse;
  list_cluster_bindings_of = λ name limit. refuse;
  list_providers_of = λ name. refuse;
}

runtime : Runtime Boot String
runtime = record {
  constants = constants;
  subject_sorter = insertion;
  sha256_hex = λ s. s;
  decimal = λ n. "n";
  quote = λ s. s;
  error_text = λ e. e;
  now = λ w. (7, w);
  set_status_condition = λ cs c w. (c ∷ cs, w);
  own_role_binding = λ b rb. ok rb;
  own_cluster_role_binding = λ b rb. ok rb;
  same_owner_references = λ xs ys. true;
  record_event = λ e w. w;
  observe = λ m w. w;
}

-- Every registration is accepted, and the manager fails while it serves.
abbrev services : Services Boot String ℕ ℕ
services = record {
  client = client;
  runtime = runtime;
  list_providers = λ limit. refuse;
  list_bindings_in = λ namespace. refuse;
  list_cluster_bindings = refuse;
  indexer = record {
    index_bindings = λ field f. log (index rbac_group_bindings field);
    index_cluster_bindings = λ field f. log (index cluster_rbac_group_bindings field);
    index_providers = λ field f. log (index ldap_providers field);
  };
  complete = λ spec. log (controller spec.for_object);
  complete_webhook = λ v. log (webhook rbac_group_bindings);
  complete_cluster_webhook = λ v. log (webhook cluster_rbac_group_bindings);
  add_healthz_check = λ name check. log (health_check name);
  add_readyz_check = λ name check. log (ready_check name);
  healthz_ping = λ w. (ok tt, w);
  start = λ w. (err "lost lease", record w { served = true });
  limiters = λ w. w.limiters;
  set_limiters = λ l w. record w { limiters = l };
}

abbrev new_manager : ManagerOptions → Action Boot String (Services Boot String ℕ ℕ)
new_manager options w = (ok services, w)

abbrev fresh : Boot
fresh = record {
  log = [];
  served = false;
  limiters = record { rate = 0; burst = pos 0; limiters = none };
}

abbrev flags : Flags
flags = record default_flags { enable_validating_webhook = true }
