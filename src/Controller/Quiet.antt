-- ===== src/Controller/Quiet.antt =====
-- internal/controller: what setting conditions and recording events leave alone.
use directory_rbac_operator.Base.{String, ◌≡◌, refl, ◌∙◌, List, [], ◌∷◌}
use directory_rbac_operator.Go.Action.Keeps.{KeepsEffect}
use directory_rbac_operator.Kube.Objects.{ObjectKey, Condition}
use directory_rbac_operator.Kube.Runtime.{Runtime}
use directory_rbac_operator.Controller.Common.{set_conditions, record_warning}
use directory_rbac_operator.Controller.Laws.{KeepsView}

module _ {W E V : Type 0} (runtime : Runtime W E) (view : W → V)
    (setting : (cs : List Condition) (c : Condition) (w : W)
      → view (runtime.set_status_condition cs c w).1 ≡ view w) where
  pub set_conditions-keeps_by :
      (cs new : List Condition) (w : W) → view (set_conditions runtime cs new w).1 ≡ view w
  unfolding set_conditions
  set_conditions-keeps_by cs [] w = refl
  set_conditions-keeps_by cs (c ∷ new) w =
      set_conditions-keeps_by (runtime.set_status_condition cs c w).0 new
        (runtime.set_status_condition cs c w).1
      ∙ setting cs c w

module _ {W E V : Type 0} {runtime : Runtime W E} {view : W → V}
    (quiet : KeepsView runtime view) where
  pub set_conditions-keeps :
      (cs new : List Condition) (w : W) → view (set_conditions runtime cs new w).1 ≡ view w
  set_conditions-keeps = set_conditions-keeps_by runtime view quiet.set_status_condition-keeps

  pub record_warning-keeps :
      (kind : String) (key : ObjectKey) (reason text : String)
      → KeepsEffect view (record_warning runtime kind key reason text)
  unfolding record_warning
  record_warning-keeps kind key reason text w = quiet.record_event-keeps _ w
