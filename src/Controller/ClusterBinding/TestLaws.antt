-- ===== src/Controller/ClusterBinding/TestLaws.antt =====
-- What holds of the small cluster with one cluster-wide binding: its objects without a namespace, and its libraries.
use directory_rbac_operator.Base.{◌≡◌, refl, ap, arith, Option, some, none}
use directory_rbac_operator.Go.Action.{ok}
use directory_rbac_operator.Kube.Objects.{ObjectKey, key_of, RoleBinding, ClusterRoleBinding}
use directory_rbac_operator.Kube.Client.{ClientLaws, Wrote}
use directory_rbac_operator.Controller.Laws.{RuntimeLaws}
use directory_rbac_operator.Controller.Sample.{
  put, put_self, put_other, same_key_iff, find-set_condition, find-set_condition_other,
  same_owners_iff,
}
use directory_rbac_operator.Controller.Sample.Laws.{same}
use directory_rbac_operator.Controller.ClusterBinding.Tests.{Cluster, found, client, runtime}
use directory_rbac_operator.Controller.ClusterBinding.Unscoped.{
  as_role_binding, as_cluster_role_binding, as_binding, as_cluster_binding, on_ok, unscoped,
}

abbrev pub shown : Option ClusterRoleBinding → Option RoleBinding
shown none = none
shown (some rb) = some (as_role_binding rb)

abbrev pub role_bindings : Cluster → ObjectKey → Option RoleBinding
role_bindings w key = shown (w.cluster_role_bindings key)

-- The world with an entry written.
abbrev pub written : ObjectKey → Option ClusterRoleBinding → Cluster → Cluster
written key v w = record w { cluster_role_bindings = put key v w.cluster_role_bindings }

pub written_elsewhere :
    (k : ObjectKey) (v : Option ClusterRoleBinding) (w : Cluster) (key : ObjectKey)
    → ¬ (key ≡ k)
    → role_bindings (written k v w) key ≡ role_bindings w key
written_elsewhere k v w key h = ap shown (put_other k v w.cluster_role_bindings key h)

written_self :
    (k : ObjectKey) (rb : ClusterRoleBinding) (w : Cluster)
    → role_bindings (written k (some rb) w) k ≡ some (as_role_binding rb)
written_self k rb w = ap shown (put_self k (some rb) w.cluster_role_bindings)

pub deleted_self : (k : ObjectKey) (w : Cluster) → role_bindings (written k none w) k ≡ none
deleted_self k w = ap shown (put_self k none w.cluster_role_bindings)

pub wrote :
    (rb : RoleBinding) (w : Cluster)
    → Wrote rb
        (role_bindings w)
        (role_bindings (written (key_of rb.meta) (some (as_cluster_role_binding rb)) w))
wrote rb w = record {
  stored = rb;
  at_key = written_self (key_of rb.meta) (as_cluster_role_binding rb) w;
  content = record { same_subjects = refl; same_role_ref = refl; same_owners = refl };
  elsewhere = written_elsewhere (key_of rb.meta) (some (as_cluster_role_binding rb)) w;
}

pub read_key :
    (key : ObjectKey) (o : Option ClusterRoleBinding) (rb : RoleBinding)
    → on_ok as_role_binding (found key o) ≡ ok rb
    → (o ≡ some (as_cluster_role_binding rb)) × (key_of rb.meta ≡ key)
read_key key none rb h = cc
read_key key (some x) rb h = ground (arith, same_key_iff (key_of x.meta) key)

pub reads_stored :
    (key : ObjectKey) (w : Cluster) (rb : RoleBinding)
    → ((unscoped client).get_role_binding key w).0 ≡ ok rb
    → role_bindings w key ≡ some rb
reads_stored key w rb h = ap shown (read_key key (w.cluster_role_bindings key) rb h).0

abbrev pub laws : ClientLaws (unscoped client)
laws = record {
  role_bindings = role_bindings;
  bindings = λ w key. some (as_binding w.binding);
  get_binding-keeps = λ key. same _ _ (λ w. refl);
  get_provider-keeps = λ key. same _ _ (λ w. refl);
  get_role_binding-keeps = λ key. same _ _ (λ w. refl);
  update_binding_status-keeps = λ b. same _ _ (λ w. refl);
  create_role_binding-wrote = λ rb w h. wrote rb w;
  update_role_binding-wrote = λ rb w h. wrote rb w;
  delete_role_binding-gone = λ rb w h. deleted_self (key_of rb.meta) w;
  delete_role_binding-elsewhere = λ rb w. written_elsewhere (key_of rb.meta) none w;
  create_role_binding-elsewhere =
      λ rb w. written_elsewhere (key_of rb.meta) (some (as_cluster_role_binding rb)) w;
  update_role_binding-elsewhere =
      λ rb w. written_elsewhere (key_of rb.meta) (some (as_cluster_role_binding rb)) w;
  get_role_binding-key = λ key w rb h. (read_key key (w.cluster_role_bindings key) rb h).1;
  update_binding_status-stored = λ b w h. (as_binding (as_cluster_binding b), refl, refl);
}

pub runtime_laws : RuntimeLaws runtime
runtime_laws = record {
  set_status_condition-Shows = λ cs c w. record {
    stored = c;
    found = find-set_condition cs c;
    same_status = refl;
    same_reason = refl;
    same_message = refl;
  };
  set_status_condition-others = λ cs c w type h. find-set_condition_other cs c type h;
  own_role_binding-content = λ b rb owned h. ground arith;
  same_owner_references-iff = same_owners_iff;
}
