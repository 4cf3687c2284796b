-- ===== src/Controller/Binding/Tests.antt =====
-- Runs of the reconciler on a small cluster, and its theorems there.
use mathlib.Core.List.Perm
use directory_rbac_operator.Base.{
  pos, String, ◌≡◌, ◌⊎◌, refl, sym, true, false, arith, eq_iff, some, none, List, [], ◌∷◌,
}
use directory_rbac_operator.Go.Errors.{
  GoError, group_not_found, plain, wrap, foreign, is_group_not_found, foreign_test, error_text,
}
use directory_rbac_operator.Go.Action.{
  Result, ok, err, ok-injective, pure, fail, reading, try, of_result, deferring, perform, ◌>>=◌,
  ◌>>◌, with_error, call,
}
use directory_rbac_operator.Go.Sort.{insertion_sort}
use directory_rbac_operator.Rbacsync.Diff.{
  subjects_equal, sorted_subjects, subject_less, same_elements, same_subject, preview_members,
  members_hash, member_count,
}
use directory_rbac_operator.Kube.Objects.{ObjectKey, key_of, ObjectMeta, RoleBinding}
use directory_rbac_operator.Api.{RbacGroupBinding, LdapProvider}
use directory_rbac_operator.Controller.Common.{
  GrouperResolver, ReconcileResult, sync_unchanged, set_conditions, record_warning, record_success,
  same_role_ref,
}
use directory_rbac_operator.Controller.Laws.{ResolverKeeps}
use directory_rbac_operator.Controller.Sample.{
  World, no_limiters, ApiError, refused, client, runtime, runtime_laws, put, own,
}
use directory_rbac_operator.Controller.Sample.Laws.{
  client_laws, keeps_role_bindings, keeps_bindings, reads_stored,
}
use directory_rbac_operator.Rbacsync.{subjects, build_role_binding}
use directory_rbac_operator.Controller.Binding.Status.{
  RbacGroupBindingReconciler, mark_ready, mark_degraded, mark_group_not_found, ready_conditions,
  ready_binding, degraded_conditions, failed_binding, group_not_found_conditions,
}
use directory_rbac_operator.Controller.Binding.Reconcile.{
  reconcile, on_binding, on_provider, on_grouper, on_members, apply_members, on_outcome, report,
}
use directory_rbac_operator.Controller.Binding.Sync.{
  reconcile_role_binding, sync_found, sync_subjects, recreate, create, with_subjects,
}
use directory_rbac_operator.Controller.Binding.Frame.{HasResolved, reconcile-role_bindings}
use directory_rbac_operator.Controller.Binding.InSync.{InSync, reconcile_role_binding_again}
use directory_rbac_operator.Controller.Stored.{Refused}
use directory_rbac_operator.Controller.Binding.Outcome.{HasStatus, IsGroupNotFound, IsReady}
use directory_rbac_operator.Controller.Binding.Failsafe.{IsRead, reconcile-IsGroupNotFound}
use directory_rbac_operator.Controller.Binding.Success.{Grants, reconcile-IsReady}
use directory_rbac_operator.Controller.Binding.Recreate.{recreate_loses}

abbrev meta : String → String → ObjectMeta
meta name namespace = record {
  name = name;
  namespace = namespace;
  uid = "u1";
  resource_version = "1";
  generation = 3;
  deletion_timestamp = none;
  owner_references = [];
  finalizers = [];
}

abbrev pub provider : LdapProvider
provider = record {
  meta = meta "corp-ad" "";
  spec = record {
    url = "ldaps://ad.corp.local:636";
    bind_dn = "cn=svc";
    bind_password_secret_ref = record { name = "ldap-bind"; key = "password" };
    tls_config = none;
    insecure_skip_tls = false;
    user_search_base = "ou=people";
    group_search_base = "ou=groups";
    sync_interval = pos 60000000000;
    username_attribute = "uid";
    directory_type = "OpenLDAP";
  };
  status = record { observed_generation = 1; conditions = []; last_verified_time = none };
}

abbrev pub binding : RbacGroupBinding
binding = record {
  meta = meta "data-team-edit" "default";
  spec = record {
    provider_ref = "corp-ad";
    group_dn = "cn=data-team";
    role_ref = record { kind = "ClusterRole"; name = "edit" };
  };
  status = record {
    observed_generation = 1;
    conditions = [];
    last_sync_time = some 5;
    member_count = 1;
    members_preview = "carol" ∷ [];
    members_truncated = false;
    members_hash = "carol";
    role_binding_ref = some "data-team-edit";
  };
}

abbrev pub binding_key : ObjectKey
binding_key = record { namespace = "default"; name = "data-team-edit" }

abbrev provider_at : ObjectKey
provider_at = record { namespace = ""; name = "corp-ad" }

abbrev pub members : List String
members = "alice" ∷ "bob" ∷ []

-- A cluster with the binding, its provider and no RoleBinding.
abbrev pub empty : World
empty = record {
  role_bindings = λ key. none;
  bindings = put binding_key (some binding) (λ key. none);
  providers = put provider_at (some provider) (λ key. none);
  secrets = λ key. none;
  full = false;
  events = [];
  metrics = [];
  meter = record { dials = 0; grants = 0 };
  clock = 7;
  secured = false;
  leaks = 0;
  limiters = no_limiters;
}

-- A directory that always gives one answer.
abbrev answering : Result (GoError ApiError) (List String) → GrouperResolver World ApiError
answering answer p w = (ok (λ dn w'. (answer, w')), w)

abbrev pub reconciler :
    Result (GoError ApiError) (List String) → RbacGroupBindingReconciler World ApiError
reconciler answer = record { client = client; runtime = runtime; grouper = answering answer }

pub answering-keeps :
    (answer : Result (GoError ApiError) (List String))
    → ResolverKeeps (answering answer) client_laws.role_bindings
answering-keeps answer = record {
  resolver-Keeps = λ p. record { keeps = λ w. refl };
  grouper-Keeps = λ p w g dn h. rw (sym (ok-injective h)) (record { keeps = λ w'. refl });
}

abbrev pub unreachable : GoError ApiError
unreachable = wrap "ldapclient: dial: " (plain "connection refused") ""

abbrev missing : GoError ApiError
missing = wrap "ldapclient: " group_not_found ": cn=data-team"

pub is_read :
    (answer : Result (GoError ApiError) (List String))
    → IsRead (reconciler answer) binding_key empty binding provider empty
is_read answer = record { binding_found = refl; provider_found = refl; then = refl }

-- A group that the directory does not have.
reconcile-IsGroupNotFound_example :
    let r = reconciler (err missing) in
    let (res, after) = reconcile r binding_key empty in
    (after.role_bindings ≡ empty.role_bindings)
    × (Refused res
        ⊎ ((res ≡ ok (record { requeue_after = pos 60000000000 }))
            × HasStatus r client_laws
                (key_of binding.meta)
                after
                (IsGroupNotFound r client_laws runtime_laws binding)))
unfolding is_group_not_found
reconcile-IsGroupNotFound_example =
    reconcile-IsGroupNotFound (reconciler (err missing)) client_laws keeps_role_bindings
      (answering-keeps (err missing)) keeps_bindings runtime_laws binding_key empty empty binding
      provider missing (λ dn w. (err missing, w)) (is_read (err missing)) refl refl refl

-- Everything that a run of the reconciler computes with.
unfoldable pub program : Unit {0}
unfolding reconcile on_binding on_provider on_grouper on_members apply_members on_outcome report
    mark_ready mark_degraded mark_group_not_found ready_conditions ready_binding degraded_conditions
    failed_binding group_not_found_conditions reconcile_role_binding sync_found sync_subjects
    recreate create with_subjects set_conditions record_warning record_success same_role_ref
    build_role_binding subjects subjects_equal sorted_subjects insertion_sort subject_less
    same_elements same_subject preview_members members_hash member_count is_group_not_found
    foreign_test error_text pure fail reading try of_result deferring perform ◌>>=◌ ◌>>◌ with_error
    call
program = tt

abbrev pub wanted : RoleBinding
wanted = own binding (build_role_binding runtime.constants binding members)

-- The RoleBinding after a first run, which is written out here.
first_run :
    (reconcile (reconciler (ok members)) binding_key empty).1.role_bindings binding_key
    ≡ some wanted
unfolding program
first_run = refl

reconcile-IsReady_example :
    let r = reconciler (ok members) in
    Grants r client_laws keeps_role_bindings
      (answering-keeps (ok members))
      keeps_bindings
      runtime_laws
      binding
      members
      empty.role_bindings
      (reconcile r binding_key empty).1.role_bindings
    × HasStatus r client_laws
        (key_of binding.meta)
        (reconcile r binding_key empty).1
        (IsReady r client_laws runtime_laws binding members)
    × (◌≡◌ {A = ReconcileResult}
        (record { requeue_after = pos 60000000000 })
        (record { requeue_after = pos 60000000000 }))
unfolding program
reconcile-IsReady_example =
    reconcile-IsReady (reconciler (ok members)) client_laws keeps_role_bindings
      (answering-keeps (ok members)) keeps_bindings runtime_laws binding_key empty empty binding
      provider (λ dn w. (ok members, w)) members (record { requeue_after = pos 60000000000 })
      reads_stored (is_read (ok members)) refl refl refl

reconcile-role_bindings_example :
    let r = reconciler (err unreachable) in
    ((reconcile r binding_key empty).1.role_bindings ≡ empty.role_bindings)
    ⊎ HasResolved r binding_key empty
reconcile-role_bindings_example =
    reconcile-role_bindings (reconciler (err unreachable)) client_laws keeps_role_bindings
      (answering-keeps (err unreachable)) binding_key empty

-- A cluster that holds the wanted RoleBinding with its subjects in the other order.
abbrev reordered : RoleBinding
reordered = record wanted { subjects = subjects runtime.constants ("bob" ∷ "alice" ∷ []) }

abbrev synced : World
synced = record empty { role_bindings = put binding_key (some reordered) (λ key. none) }

reordered-InSync : InSync wanted reordered
unfolding build_role_binding subjects
reordered-InSync = record { subjects = Perm.swap _ _ []; role_ref = refl; owners = refl }

reconcile_role_binding_again_example :
    reconcile_role_binding (reconciler (ok members)) wanted synced ≡ (ok sync_unchanged, synced)
unfolding build_role_binding subjects
reconcile_role_binding_again_example =
    reconcile_role_binding_again (reconciler (ok members)) client_laws runtime_laws wanted reordered
      "rbac.authorization.k8s.io" synced (refl, (refl, tt)) reordered-InSync refl

-- Another role is stored, and the cluster refuses every Create.
abbrev other_role : RoleBinding
other_role =
    let role_ref = wanted.role_ref in record wanted { role_ref = record role_ref { name = "view" } }

abbrev full : World
full = record empty { role_bindings = put binding_key (some other_role) (λ key. none); full = true }

recreate_loses_example :
    let (res, after) = reconcile_role_binding (reconciler (ok members)) wanted full in
    (res ≡ err (foreign refused)) × (after.role_bindings (key_of wanted.meta) ≡ none)
unfolding build_role_binding
recreate_loses_example =
    recreate_loses (reconciler (ok members)) client_laws wanted other_role refused full refl
      (λ e. ground (arith, eq_iff "edit" "view")) refl refl refl
