-- ===== src/Webhook/Tests.antt =====
-- The admission of bindings at concrete requests.
use mathlib.Core.List.{Mem}
use directory_rbac_operator.Base.{arith, false, String, ◌≡◌, ◌↔◌, refl, some, none, List, [], ◌∷◌}
use directory_rbac_operator.Go.Action.{ok, Action, pure, call, wrapping, ◌>>=◌}
use directory_rbac_operator.Kube.Objects.{ObjectMeta}
use directory_rbac_operator.Api.{RbacGroupBinding, ClusterRbacGroupBinding}
use directory_rbac_operator.Webhook.{
  validate_create, validate_update, reject_duplicate, validate_cluster_update,
}
use directory_rbac_operator.Webhook.Check.{check}
use directory_rbac_operator.Webhook.Conflict.{Compatible, ClusterCompatible}
use directory_rbac_operator.Webhook.Decision.{validate_update_iff, validate_cluster_update_iff}
use directory_rbac_operator.Webhook.Unique.{
  IsUnique, IsAdmitted, start, created, set, Reachable-IsUnique,
}

abbrev meta : String → String → ObjectMeta
meta name namespace = record {
  name = name;
  namespace = namespace;
  uid = "u1";
  resource_version = "1";
  generation = 1;
  deletion_timestamp = none;
  owner_references = [];
  finalizers = [];
}

abbrev binding : String → String → RbacGroupBinding
binding name group = record {
  meta = meta name "default";
  spec = record {
    provider_ref = "corp-ad";
    group_dn = group;
    role_ref = record { kind = "Role"; name = "edit" };
  };
  status = record {
    observed_generation = 0;
    conditions = [];
    last_sync_time = none;
    member_count = 0;
    members_preview = [];
    members_truncated = false;
    members_hash = "";
    role_binding_ref = none;
  };
}

abbrev cluster_binding : String → String → ClusterRbacGroupBinding
cluster_binding name group = record {
  meta = meta name "";
  spec = record { provider_ref = "corp-ad"; group_dn = group; cluster_role_ref = "view" };
  status = record {
    observed_generation = 0;
    conditions = [];
    last_sync_time = none;
    member_count = 0;
    members_preview = [];
    members_truncated = false;
    members_hash = "";
    cluster_role_binding_ref = none;
  };
}

abbrev same_text : String → String
same_text s = s

-- The outside world is the listing itself.
abbrev list : String → Action (List RbacGroupBinding) (Unit {0}) (List RbacGroupBinding)
list namespace w = (ok w, w)

abbrev list_cluster :
    Action (List ClusterRbacGroupBinding) (Unit {0}) (List ClusterRbacGroupBinding)
list_cluster w = (ok w, w)

abbrev team : RbacGroupBinding
team = binding "team" "cn=team"

validate_update_iff_example :
    ((validate_update same_text list team (binding "team" "cn=ops") (team ∷ [])).0 ≡ ok tt)
    ↔ ((x : RbacGroupBinding) → Mem x (team ∷ []) → Compatible (binding "team" "cn=ops") x)
validate_update_iff_example =
    validate_update_iff same_text list team (binding "team" "cn=ops") (team ∷ []) (team ∷ []) refl

validate_cluster_update_iff_example :
    let old = cluster_binding "all" "cn=all" in
    let new = cluster_binding "all" "cn=ops" in
    ((validate_cluster_update same_text list_cluster old new (old ∷ [])).0 ≡ ok tt)
    ↔ ((x : ClusterRbacGroupBinding) → Mem x (old ∷ []) → ClusterCompatible new x)
validate_cluster_update_iff_example =
    let old = cluster_binding "all" "cn=all" in
    validate_cluster_update_iff same_text list_cluster old (cluster_binding "all" "cn=ops")
      (old ∷ []) (old ∷ []) refl

first_created : IsAdmitted same_text list (validate_create same_text list) (λ n. none) team
unfolding validate_create reject_duplicate ◌>>=◌ wrapping call check pure
first_created = record {
  world = [];
  items = [];
  listed = refl;
  complete = λ n x h. ground (arith, h);
  accepted = refl;
}

Reachable-IsUnique_example : IsUnique (set "team" (some team) (λ n. none))
Reachable-IsUnique_example =
    Reachable-IsUnique same_text list (set "team" (some team) (λ n. none))
      (created (λ n. none) team start first_created)
