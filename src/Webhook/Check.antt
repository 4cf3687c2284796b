-- ===== src/Webhook/Check.antt =====
-- internal/webhook: the loop of rejectDuplicate, which is the same in both validators.
use mathlib.Core.List.{Mem, not-mem-nil, forall_mem-cons}
use directory_rbac_operator.Base.{
  arith, String, ◌≡◌, ◌≢◌, ◌↔◌, refl, sym, Bool, false, ◌==◌, eq_iff, List, [], ◌∷◌, inl, inr,
  Bool-cases, if◌then◌else◌,
}
use directory_rbac_operator.Go.Errors.{GoError, plain}
use directory_rbac_operator.Go.Action.{Result, ok, ok≢err, Action, pure, fail}

module _ {B : Type 0} (name_of : B → String) (maps_same : B → B → Bool) where
  -- A listed binding of another name does not pass the test against the new one.
  abbrev pub Differs : B → B → Type 0
  Differs binding x = name_of x ≢ name_of binding → maps_same x binding ≡ false

module _ {B : Type 0} (name_of : B → String) (maps_same : B → B → Bool)
    (text : B → B → String) where
  -- A binding is not compared with itself, which is listed on an update.
  unfoldable pub check : {W E : Type 0} → B → List B → Action W (GoError E) (Unit {0})
  check binding [] = pure tt
  check binding (existing ∷ items) =
      let rest = check binding items in
      if name_of existing == name_of binding
      then rest
      else if maps_same existing binding
      then fail (plain (text existing binding))
      else rest

  abbrev AllDiffer : B → List B → Type 0
  AllDiffer binding items = (x : B) → Mem x items → Differs name_of maps_same binding x

  AllDiffer-cons :
      (binding x : B) (items : List B)
      → AllDiffer binding (x ∷ items)
        ↔ (Differs name_of maps_same binding x × AllDiffer binding items)
  AllDiffer-cons binding x items = forall_mem-cons (hlevel)

  module _ {W : Type 0} (E : Type 0) where
    abbrev pub Accepts : B → List B → W → Type 0
    Accepts binding items w =
        ◌≡◌ {A = Result (GoError E) (Unit {0})} (check {E = E} binding items w).0 (ok tt)

    -- The loop finds nothing exactly when no listed binding of another name maps the same.
    pub check_iff :
        (binding : B) (items : List B) (w : W) → Accepts binding items w ↔ AllDiffer binding items
    unfolding check pure fail
    check_iff binding [] w = (λ h x m. absurd (not-mem-nil m), λ h. refl)
    check_iff binding (x ∷ items) w =
        let (unpack, pack) = AllDiffer-cons binding x items in
        let (sound, complete) = check_iff binding items w in
        elim (Bool-cases (name_of x == name_of binding)) [
          | inl p ↦ rw p (
            λ h. pack (λ ne. absurd (ne ((eq_iff _ _).0 p)), sound h),
            λ h. complete (unpack h).1,
          )
          | inr p ↦ elim (Bool-cases (maps_same x binding)) [
            | inl q ↦
                rw (p, q)
                  (
                    λ h. absurd (ok≢err (sym h)),
                    λ h. ground (arith, q, p, (unpack h).0, eq_iff (name_of x) (name_of binding)),
                  )
            | inr q ↦ rw (p, q) (λ h. pack (λ ne. q, sound h), λ h. complete (unpack h).1)
          ]
        ]
