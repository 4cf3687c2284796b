-- ===== src/Controller/Watches/Tests.antt =====
-- A change of a secret on a cache with one provider and one binding of each kind.
use mathlib.Core.List.{Memᴰ}
use directory_rbac_operator.Base.{
  String, ◌≡◌, ◌↔◌, refl, sym, ap, subst, ◌∙◌, inl, inr, false, Bool-cases, ◌==◌, eq_iff, arith,
  none, List, [], ◌∷◌, if◌then◌else◌,
}
use directory_rbac_operator.Go.Action.{Result, ok, ok-injective, Action}
use directory_rbac_operator.Kube.Client.{Client}
use directory_rbac_operator.Api.{ClusterRbacGroupBinding}
use directory_rbac_operator.Controller.Sample.{World, ApiError, client}
use directory_rbac_operator.Controller.Sample.Laws.{same}
use directory_rbac_operator.Controller.Binding.Tests.{provider, binding}
use directory_rbac_operator.Controller.Watches.{
  WatchedObject, secret_object, binding_index, cluster_binding_index, ca_names, provider_index,
}
use directory_rbac_operator.Controller.Watches.Indexes.{Lists, singleton_iff}

abbrev pub only : {B : Type 0} → String → B → String → Result ApiError (List B)
only name item value = ok (if value == name then item ∷ [] else [])

abbrev pub list_only : {B : Type 0} → String → B → String → Action World ApiError (List B)
list_only name item value w = (only name item value, w)

pub only_iff :
    {B : Type 0} (index : B → List String) (name : String) (item : B)
    → index item ≡ name ∷ []
    → (value : String) (b : B)
    → Memᴰ b (if value == name then item ∷ [] else []) ↔ (Memᴰ b (item ∷ []) × Memᴰ value (index b))
only_iff index name item at value b = elim (Bool-cases (value == name)) [
  | inl q ↦ rw q (
    λ m. (
      m,
      elim m [
        | Memᴰ.head e ↦
            subst (λ l. Memᴰ value l) (sym (ap index e ∙ at))
              ((singleton_iff value name).1 (sym ((eq_iff value name).0 q)))
        | Memᴰ.tail m' ↦ elim m' [ ]
      ],
    ),
    λ (m, _). m,
  )
  | inr q ↦ rw q (
    λ m. elim m [ ],
    λ (m, n). elim m [
      | Memᴰ.head e ↦
          let is_name =
            (singleton_iff value name).0 (subst (λ l. Memᴰ value l) (ap index e ∙ at) n) in
          ground (arith, q, is_name, eq_iff value name)
      | Memᴰ.tail m' ↦ elim m' [ ]
    ],
  )
]

abbrev pub lists_only :
    {B : Type 0} (index : B → List String) (name : String) (item : B)
    → index item ≡ name ∷ []
    → Lists {V = Unit {0}} (λ w. tt) index (list_only name item)
lists_only index name item at = record {
  items = λ v. item ∷ [];
  answer = λ value v. only name item value;
  list-answer = λ value w. refl;
  list-Keeps = λ value. same _ _ (λ w. refl);
  listed_iff = λ value v listed q b.
      subst (λ l. Memᴰ b l ↔ (Memᴰ b (item ∷ []) × Memᴰ value (index b))) (ok-injective q)
        (only_iff index name item at value b);
}

abbrev pub cluster_binding : ClusterRbacGroupBinding
cluster_binding =
    let meta = binding.meta in
    record {
      meta = record meta { namespace = "" };
      spec = record {
        provider_ref = "corp-ad";
        group_dn = "cn=admins";
        cluster_role_ref = "admin";
      };
      status = record {
        observed_generation = 1;
        conditions = [];
        last_sync_time = none;
        member_count = 0;
        members_preview = [];
        members_truncated = false;
        members_hash = "";
        cluster_role_binding_ref = none;
      };
    }

abbrev pub watching : Client World ApiError
watching = record client {
  list_bindings_of = λ name limit. list_only "corp-ad" binding name;
  list_cluster_bindings_of = λ name limit. list_only "corp-ad" cluster_binding name;
  list_providers_of = list_only "ldap-bind" provider;
}

pub by_provider : provider_index provider ≡ "ldap-bind" ∷ []
unfolding provider_index ca_names
by_provider = refl

pub by_binding : binding_index binding ≡ "corp-ad" ∷ []
unfolding binding_index
by_binding = refl

pub by_cluster_binding : cluster_binding_index cluster_binding ≡ "corp-ad" ∷ []
unfolding cluster_binding_index
by_cluster_binding = refl

abbrev changed : WatchedObject
changed =
    let meta = binding.meta in
    secret_object (record {
      meta = record meta { name = "ldap-bind"; namespace = "ldap" };
      entries = λ k. none;
    })

abbrev pub providers : Lists {V = Unit {0}} (λ w. tt) provider_index watching.list_providers_of
providers = lists_only provider_index "ldap-bind" provider by_provider

abbrev pub bindings :
    Lists {V = Unit {0}} (λ w. tt) binding_index (λ name. watching.list_bindings_of name 0)
bindings = lists_only binding_index "corp-ad" binding by_binding

abbrev pub cluster_bindings :
    Lists {V = Unit {0}}
      (λ w. tt)
      cluster_binding_index
      (λ name. watching.list_cluster_bindings_of name 0)
cluster_bindings = lists_only cluster_binding_index "corp-ad" cluster_binding by_cluster_binding
