-- ===== src/Controller/Common.antt =====
-- internal/controller: the parts that the reconcilers share, from readiness.go, events.go and
-- grouperfactory.go.
use directory_rbac_operator.Base.{
  String, Bool, Option, none, some, List, [], ◌∷◌, ◌==◌, ◌&&◌, if◌then◌else◌,
}
use directory_rbac_operator.Go.Errors.{GoError}
use directory_rbac_operator.Go.Action.{Action, Effect}
use directory_rbac_operator.Kube.Objects.{ObjectKey, Condition, Duration, RbacRoleRef}
use directory_rbac_operator.Kube.Runtime.{Runtime, normal, warning}
use directory_rbac_operator.Api.{LdapProvider}

-- ldapclient.Grouper: the members of a group, by its distinguished name.
abbrev pub Grouper : Type 0 → Type 0 → Type 0
Grouper W E = String → Action W (GoError E) (List String)

-- ldapclient.Pinger
abbrev pub Pinger : Type 0 → Type 0 → Type 0
Pinger W E = Action W (GoError E) (Unit {0})

-- GrouperResolver and PingerResolver (grouperfactory.go)
abbrev pub GrouperResolver : Type 0 → Type 0 → Type 0
GrouperResolver W E = LdapProvider → Action W (GoError E) (Grouper W E)

abbrev pub PingerResolver : Type 0 → Type 0 → Type 0
PingerResolver W E = LdapProvider → Action W (GoError E) (Pinger W E)

-- ctrl.Result; with an error beside it the result is always the zero value.
pub record ReconcileResult : Type 0 where
  pub requeue_after : Duration

-- findCondition (readiness.go)
unfoldable pub find_condition : List Condition → String → Option Condition
find_condition [] type = none
find_condition (c ∷ cs) type = if c.type == type then some c else find_condition cs type

-- syncOutcome
pub data SyncOutcome : Type 0 where
  sync_unchanged sync_created sync_updated sync_recreated : SyncOutcome

-- `==` on rbacv1.RoleRef compares every field.
unfoldable pub same_role_ref : RbacRoleRef → RbacRoleRef → Bool
same_role_ref a b = a.api_group == b.api_group && a.kind == b.kind && a.name == b.name

abbrev pub event_action : String
event_action = "Sync"

module _ {W E : Type 0} (runtime : Runtime W E) where
  -- recordWarning and recordSuccessf (events.go)
  unfoldable pub record_warning : String → ObjectKey → String → String → Effect W
  record_warning kind key reason message = runtime.record_event (record {
    kind = kind;
    key = key;
    type = warning;
    reason = reason;
    action = event_action;
    note = message;
  })

  unfoldable pub record_success : String → ObjectKey → String → String → Effect W
  record_success kind key reason note = runtime.record_event (record {
    kind = kind;
    key = key;
    type = normal;
    reason = reason;
    action = event_action;
    note = note;
  })

  -- The calls of meta.SetStatusCondition that the functions named mark... make one after another.
  unfoldable pub set_conditions : List Condition → List Condition → W → List Condition × W
  set_conditions conditions [] w = (conditions, w)
  set_conditions conditions (c ∷ cs) w =
      let (conditions', w') = runtime.set_status_condition conditions c w in
      set_conditions conditions' cs w'
