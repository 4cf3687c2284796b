-- ===== src/Controller/Sample.antt =====
-- A small cluster in memory that meets the laws of the libraries, for tests and examples.
pub mod Laws
pub mod Serving
use directory_rbac_operator.Base.{
  ℕ, ℤ, pos, String, ◌+++◌, ◌≡◌, ◌≢◌, ◌↔◌, refl, Bool, true, false, ◌&&◌, ◌==◌, eq_iff, arith,
  Option, some, none, List, [], ◌∷◌, if◌then◌else◌,
}
use directory_rbac_operator.Go.Errors.{GoError, group_not_found, plain}
use directory_rbac_operator.Go.Action.{Result, ok, err, Action}
use directory_rbac_operator.Go.Action.Keeps.{Keeps}
use directory_rbac_operator.Go.Sort.{insertion}
use directory_rbac_operator.Kube.Objects.{
  ObjectKey, key_of, ObjectMeta, OwnerReference, Constants, Condition, RoleBinding, Secret,
  Timestamp,
}
use directory_rbac_operator.Kube.Client.{Client, ClientLaws}
use directory_rbac_operator.Kube.Runtime.{Runtime, Event}
use directory_rbac_operator.Metrics.{Metric}
use directory_rbac_operator.Api.{RbacGroupBinding, LdapProvider}
use directory_rbac_operator.Ldapclient.Limiters.{Limiters}
use directory_rbac_operator.Ldapclient.Meter.{Meter}
use directory_rbac_operator.Controller.Common.{find_condition, Grouper, GrouperResolver}
use directory_rbac_operator.Controller.Laws.{Shows, RuntimeLaws, KeepsView, ResolverKeeps}

pub data ApiError : Type 0 where
  not_found refused : ApiError

pub record World : Type 0 where
  pub role_bindings : ObjectKey → Option RoleBinding
  pub bindings : ObjectKey → Option RbacGroupBinding
  pub providers : ObjectKey → Option LdapProvider
  pub secrets : ObjectKey → Option Secret
  -- whether Create is refused
  pub full : Bool
  pub events : List Event
  pub metrics : List Metric
  pub clock : Timestamp
  -- the connection to the directory: whether it is TLS, and how often something went out in clear
  pub secured : Bool
  pub leaks : ℕ
  pub limiters : Limiters ℕ ℕ
  -- what was asked of directories, and granted by the limiter
  pub meter : Meter

-- The registry as main.go makes it.
abbrev pub no_limiters : Limiters ℕ ℕ
no_limiters = record { rate = 0; burst = pos 0; limiters = none }

abbrev pub same_key : ObjectKey → ObjectKey → Bool
same_key a b = a.namespace == b.namespace && a.name == b.name

pub same_key_iff : (a b : ObjectKey) → (same_key a b ≡ true) ↔ (a ≡ b)
same_key_iff a b = ground (arith, eq_iff a.namespace b.namespace, eq_iff a.name b.name)

abbrev pub put : {A : Type 0} → ObjectKey → Option A → (ObjectKey → Option A) → ObjectKey → Option A
put k v f key = if same_key key k then v else f key

pub put_self :
    {A : Type 0} (k : ObjectKey) (v : Option A) (f : ObjectKey → Option A) → put k v f k ≡ v
put_self k v f = rw (same_key_iff k k).1 refl

pub put_other :
    {A : Type 0} (k : ObjectKey) (v : Option A) (f : ObjectKey → Option A) (key : ObjectKey)
    → key ≢ k
    → put k v f key ≡ f key
put_other k v f key h = ground (arith, same_key_iff key k)

abbrev pub found : {A : Type 0} → Option A → World → Result ApiError A × World
found (some a) w = (ok a, w)
found none w = (err not_found, w)

-- A RoleBinding as it is read: one that is stored under its own key.
abbrev pub read_role_binding : ObjectKey → World → Result ApiError RoleBinding × World
read_role_binding key w = elim (w.role_bindings key) [
  | none ↦ (err not_found, w)
  | some rb ↦ (if same_key (key_of rb.meta) key then ok rb else err not_found, w)
]

abbrev pub refuse : {A : Type 0} → Action World ApiError A
refuse w = (err refused, w)

abbrev pub create_role_binding : RoleBinding → Action World ApiError (Unit {0})
create_role_binding rb w =
    if w.full
    then (err refused, w)
    else (ok tt, record w { role_bindings = put (key_of rb.meta) (some rb) w.role_bindings })

abbrev pub client : Client World ApiError
client = record {
  is_not_found = λ e. elim e [ not_found ↦ true | refused ↦ false ];
  get_binding = λ key w. found (w.bindings key) w;
  update_binding_status =
      λ b w. (ok tt, record w { bindings = put (key_of b.meta) (some b) w.bindings });
  get_cluster_binding = λ key. refuse;
  update_cluster_binding_status = λ b. refuse;
  get_role_binding = read_role_binding;
  create_role_binding = create_role_binding;
  update_role_binding =
      λ rb w. (ok tt, record w { role_bindings = put (key_of rb.meta) (some rb) w.role_bindings });
  delete_role_binding =
      λ rb w. (ok tt, record w { role_bindings = put (key_of rb.meta) none w.role_bindings });
  get_cluster_role_binding = λ key. refuse;
  create_cluster_role_binding = λ rb. refuse;
  update_cluster_role_binding = λ rb. refuse;
  delete_cluster_role_binding = λ rb. refuse;
  get_provider = λ key w. found (w.providers key) w;
  update_provider =
      λ p w. (ok p, record w { providers = put (key_of p.meta) (some p) w.providers });
  update_provider_status =
      λ p w. (ok tt, record w { providers = put (key_of p.meta) (some p) w.providers });
  get_secret = λ key w. found (w.secrets key) w;
  list_bindings_of = λ name limit. refuse;
  list_cluster_bindings_of = λ name limit. refuse;
  list_providers_of = λ name. refuse;
}

-- meta.SetStatusCondition without its times: an entry of the type is replaced, else one is added.
abbrev pub set_condition : List Condition → Condition → List Condition
set_condition [] c = c ∷ []
set_condition (d ∷ cs) c = if d.type == c.type then c ∷ cs else d ∷ set_condition cs c

pub find-set_condition :
    (cs : List Condition) (c : Condition) → find_condition (set_condition cs c) c.type ≡ some c
unfolding find_condition
find-set_condition [] c = ground (arith, eq_iff c.type c.type)
find-set_condition (d ∷ cs) c = ground (arith, eq_iff c.type c.type, find-set_condition cs c)

pub find-set_condition_other :
    (cs : List Condition) (c : Condition) (type : String)
    → type ≢ c.type
    → find_condition (set_condition cs c) type ≡ find_condition cs type
unfolding find_condition
find-set_condition_other [] c type h = ground (arith, eq_iff c.type type)
find-set_condition_other (d ∷ cs) c type h = ground (
  arith,
  eq_iff c.type type,
  eq_iff d.type c.type,
  eq_iff d.type type,
  find-set_condition_other cs c type h,
)

abbrev pub same_owner : OwnerReference → OwnerReference → Bool
same_owner a b =
    a.api_version == b.api_version && a.kind == b.kind && a.name == b.name && a.uid == b.uid

abbrev pub same_owners : List OwnerReference → List OwnerReference → Bool
same_owners [] [] = true
same_owners [] (b ∷ bs) = false
same_owners (a ∷ as') [] = false
same_owners (a ∷ as') (b ∷ bs) = same_owner a b && same_owners as' bs

pub same_owners_iff : (a b : List OwnerReference) → (same_owners a b ≡ true) ↔ (a ≡ b)
same_owners_iff [] [] = ground arith
same_owners_iff [] (b ∷ bs) = ground arith
same_owners_iff (a ∷ as') [] = ground arith
same_owners_iff (a ∷ as') (b ∷ bs) = ground (
  arith,
  eq_iff a.api_version b.api_version,
  eq_iff a.kind b.kind,
  eq_iff a.name b.name,
  eq_iff a.uid b.uid,
  same_owners_iff as' bs,
)

pub true≢false : ◌≢◌ {A = String} "True" "False"
true≢false = ground (arith, eq_iff "True" "False")

abbrev pub constants : Constants
constants = record {
  group_name = "rbac.authorization.k8s.io";
  user_kind = "User";
  condition_true = "True";
  condition_false = "False";
  true_ne_false = true≢false;
}

abbrev pub own : RbacGroupBinding → RoleBinding → RoleBinding
own b rb =
    let meta = rb.meta in
    record rb {
      meta = record meta {
        owner_references =
            record {
              api_version = "ldaprbac.io/v1alpha1";
              kind = "RBACGroupBinding";
              name = b.meta.name;
              uid = b.meta.uid;
            }
            ∷ [];
      };
    }

abbrev pub runtime : Runtime World ApiError
runtime = record {
  constants = constants;
  subject_sorter = insertion;
  sha256_hex = λ s. s;
  decimal = λ n. "n";
  quote = λ s. "\"" +++ (s +++ "\"");
  error_text = λ e. elim e [ not_found ↦ "not found" | refused ↦ "refused" ];
  now = λ w. (w.clock, w);
  set_status_condition = λ cs c w. (set_condition cs c, w);
  own_role_binding = λ b rb. ok (own b rb);
  own_cluster_role_binding = λ b rb. ok rb;
  same_owner_references = same_owners;
  record_event = λ e w. record w { events = e ∷ w.events };
  observe = λ m w. record w { metrics = m ∷ w.metrics };
}

pub runtime_laws : RuntimeLaws runtime
runtime_laws = record {
  set_status_condition-Shows = λ cs c w. record {
    stored = c;
    found = find-set_condition cs c;
    same_status = refl;
    same_reason = refl;
    same_message = refl;
  };
  set_status_condition-others = λ cs c w type h. find-set_condition_other cs c type h;
  own_role_binding-content = λ b rb owned h. ground arith;
  same_owner_references-iff = same_owners_iff;
}
