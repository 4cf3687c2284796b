-- ===== src/Controller/Conditions.antt =====
-- The conditions that a run of meta.SetStatusCondition calls leaves behind.
use directory_rbac_operator.Base.{
  String, ◌≡◌, ◌≢◌, refl, sym, ◌∙◌, arith, eq_iff, Bool, some, List, [], ◌∷◌, if◌then◌else◌,
}
use directory_rbac_operator.Kube.Objects.{Constants, Condition}
use directory_rbac_operator.Kube.Runtime.{Runtime}
use directory_rbac_operator.Api.{condition_ready, condition_degraded, condition_group_not_found}
use directory_rbac_operator.Controller.Common.{find_condition, set_conditions}
use directory_rbac_operator.Controller.Laws.{Shows, RuntimeLaws}

-- The condition of this type is there, with this status and reason.
pub record Flag (k : Constants) (type : String) (flag : Bool) (reason : String)
    (conditions : List Condition) : Type 0 where
  pub stored : Condition
  pub found : find_condition conditions type ≡ some stored
  pub has_status : stored.status ≡ (if flag then k.condition_true else k.condition_false)
  pub has_reason : stored.reason ≡ reason

-- The three conditions of a binding, with one reason.
pub record Reports (k : Constants) (ready degraded group_not_found : Bool) (reason : String)
    (conditions : List Condition) : Type 0 where
  pub shows_ready : Flag k condition_ready ready reason conditions
  pub shows_degraded : Flag k condition_degraded degraded reason conditions
  pub shows_group_not_found : Flag k condition_group_not_found group_not_found reason conditions

abbrev pub NotAmong : String → List Condition → Type 0
NotAmong type [] = Unit
NotAmong type (c ∷ cs) = (type ≢ c.type) × NotAmong type cs

abbrev pub Distinct : List Condition → Type 0
Distinct [] = Unit
Distinct (c ∷ cs) = NotAmong c.type cs × Distinct cs

abbrev pub AllShow : List Condition → List Condition → Type 0
AllShow [] conditions = Unit
AllShow (c ∷ cs) conditions = Shows c conditions × AllShow cs conditions

pub ready≢degraded : condition_ready ≢ condition_degraded
ready≢degraded = ground (arith, eq_iff condition_ready condition_degraded)

pub ready≢group_not_found : condition_ready ≢ condition_group_not_found
ready≢group_not_found = ground (arith, eq_iff condition_ready condition_group_not_found)

pub degraded≢group_not_found : condition_degraded ≢ condition_group_not_found
degraded≢group_not_found = ground (arith, eq_iff condition_degraded condition_group_not_found)

module _ {W E : Type 0} (rt : Runtime W E) (laws : RuntimeLaws rt) where
  pub set_conditions-others :
      (new cs : List Condition) (w : W) (type : String)
      → NotAmong type new
      → find_condition (set_conditions rt cs new w).0 type ≡ find_condition cs type
  unfolding set_conditions
  set_conditions-others [] cs w type h = refl
  set_conditions-others (c ∷ new) cs w type h =
      set_conditions-others new (rt.set_status_condition cs c w).0
        (rt.set_status_condition cs c w).1 type h.1
      ∙ laws.set_status_condition-others cs c w type h.0

  -- Of several conditions of different types that are set in turn, each is there in the end.
  pub set_conditions-AllShow :
      (new cs : List Condition) (w : W) → Distinct new → AllShow new (set_conditions rt cs new w).0
  unfolding set_conditions
  set_conditions-AllShow [] cs w h = tt
  set_conditions-AllShow (c ∷ new) cs w h =
      let w' = (rt.set_status_condition cs c w).1 in
      let cs' = (rt.set_status_condition cs c w).0 in
      let shown = laws.set_status_condition-Shows cs c w in
      (
        record {
          stored = shown.stored;
          found = set_conditions-others new cs' w' c.type h.0 ∙ shown.found;
          same_status = shown.same_status;
          same_reason = shown.same_reason;
          same_message = shown.same_message;
        },
        set_conditions-AllShow new cs' w' h.1,
      )

pub Shows-Flag :
    {k : Constants} {flag : Bool} {conditions : List Condition} (c : Condition)
    → c.status ≡ (if flag then k.condition_true else k.condition_false)
    → Shows c conditions
    → Flag k c.type flag c.reason conditions
Shows-Flag c h s = record {
  stored = s.stored;
  found = s.found;
  has_status = s.same_status ∙ h;
  has_reason = s.same_reason;
}

-- A condition as the reconcilers write it.
abbrev pub flagged : Constants → String → Bool → String → String → Condition
flagged k type flag reason text = record {
  type = type;
  status = if flag then k.condition_true else k.condition_false;
  reason = reason;
  message = text;
}

module _ (k : Constants) (ready degraded group_not_found : Bool) (reason t1 t2 t3 : String) where
  -- The three conditions of a binding, in either of the orders that the reconcilers set them in.
  abbrev pub three_conditions : List Condition
  three_conditions =
      flagged k condition_ready ready reason t1
      ∷ flagged k condition_degraded degraded reason t2
      ∷ flagged k condition_group_not_found group_not_found reason t3
      ∷ []

  abbrev pub three_conditions_swapped : List Condition
  three_conditions_swapped =
      flagged k condition_ready ready reason t1
      ∷ flagged k condition_group_not_found group_not_found reason t2
      ∷ flagged k condition_degraded degraded reason t3
      ∷ []

module _ {W E : Type 0} (rt : Runtime W E) (laws : RuntimeLaws rt) (cs : List Condition) (w : W)
    (ready degraded group_not_found : Bool) (reason t1 t2 t3 : String) where
  open rt use {constants}

  pub three_conditions-Reports :
      let new = three_conditions constants ready degraded group_not_found reason t1 t2 t3 in
      Reports constants ready degraded group_not_found reason (set_conditions rt cs new w).0
  three_conditions-Reports =
      let new = three_conditions constants ready degraded group_not_found reason t1 t2 t3 in
      let shows = set_conditions-AllShow rt laws new cs w (
        (ready≢degraded, (ready≢group_not_found, tt)),
        ((degraded≢group_not_found, tt), (tt, tt)),
      ) in
      record {
        shows_ready = Shows-Flag _ refl shows.0;
        shows_degraded = Shows-Flag _ refl shows.1.0;
        shows_group_not_found = Shows-Flag _ refl shows.1.1.0;
      }

  pub three_conditions_swapped-Reports :
      let new = three_conditions_swapped constants ready degraded group_not_found reason t1 t2 t3 in
      Reports constants ready degraded group_not_found reason (set_conditions rt cs new w).0
  three_conditions_swapped-Reports =
      let new = three_conditions_swapped constants ready degraded group_not_found reason t1 t2 t3 in
      let shows = set_conditions-AllShow rt laws new cs w (
        (ready≢group_not_found, (ready≢degraded, tt)),
        ((λ e. degraded≢group_not_found (sym e), tt), (tt, tt)),
      ) in
      record {
        shows_ready = Shows-Flag _ refl shows.0;
        shows_group_not_found = Shows-Flag _ refl shows.1.0;
        shows_degraded = Shows-Flag _ refl shows.1.1.0;
      }
