-- ===== src/Controller/Sample/Serving.antt =====
-- The cluster in memory serves as long as it is not full and holds every RoleBinding under its own key.
use directory_rbac_operator.Base.{
  some-injective, ◌≡◌, ◌⊎◌, inl, inr, refl, sym, ap, ◌∙◌, arith, true, false, Bool-cases, Option,
  Option-cases, some, none,
}
use directory_rbac_operator.Go.Action.{ok, err}
use directory_rbac_operator.Go.Action.Succeeds.{Success}
use directory_rbac_operator.Kube.Objects.{ObjectKey, key_of, RoleBinding}
use directory_rbac_operator.Controller.Sample.{
  World, ApiError, not_found, same_key, same_key_iff, put, read_role_binding, create_role_binding,
  client, runtime,
}
use directory_rbac_operator.Controller.Sample.Laws.{client_laws}
use directory_rbac_operator.Controller.Binding.Serving.{IsServing}

abbrev WellKeyed : (ObjectKey → Option RoleBinding) → Type 0
WellKeyed f = (k : ObjectKey) (rb : RoleBinding) → f k ≡ some rb → key_of rb.meta ≡ k

abbrev pub Up : World → Type 0
Up w = WellKeyed w.role_bindings × (w.full ≡ false)

put-WellKeyed :
    (rb : RoleBinding) (f : ObjectKey → Option RoleBinding)
    → WellKeyed f
    → WellKeyed (put (key_of rb.meta) (some rb) f)
put-WellKeyed rb f h k rb' q = elim (Bool-cases (same_key k (key_of rb.meta))) [
  | inl p ↦
      ap (λ x. key_of x.meta) (sym (some-injective (rw p at q))) ∙ sym ((same_key_iff _ _).0 p)
  | inr p ↦ h k rb' (rw p at q)
]

put-none-WellKeyed :
    (key : ObjectKey) (f : ObjectKey → Option RoleBinding)
    → WellKeyed f
    → WellKeyed (put key none f)
put-none-WellKeyed key f h k rb q = elim (Bool-cases (same_key k key)) [
  | inl p ↦ ground (arith, p, q)
  | inr p ↦ h k rb (ground (arith, p, q))
]

read-same : (k : ObjectKey) (w : World) → (read_role_binding k w).1 ≡ w
read-same k w = ground arith

read_missing :
    (k : ObjectKey) (w : World)
    → w.role_bindings k ≡ none
    → (read_role_binding k w).0 ≡ err not_found
read_missing k w q = ground arith

read_stored :
    (k : ObjectKey) (w : World) (rb : RoleBinding)
    → w.role_bindings k ≡ some rb
    → key_of rb.meta ≡ k
    → (read_role_binding k w).0 ≡ ok rb
read_stored k w rb q e = ground (arith, same_key_iff (key_of rb.meta) k)

read-answers :
    (k : ObjectKey) (w : World)
    → Up w
    → ((rb : RoleBinding) × ((read_role_binding k w).0 ≡ ok rb) × (w.role_bindings k ≡ some rb))
      ⊎ ((e : ApiError) × ((read_role_binding k w).0 ≡ err e)
          × (client.is_not_found e ≡ true)
          × (w.role_bindings k ≡ none))
read-answers k w h = elim (Option-cases (w.role_bindings k)) [
  | inl q ↦ inr (not_found, read_missing k w q, refl, q)
  | inr (rb, q) ↦ inl (rb, read_stored k w rb q (h.0 k rb q), q)
]

put-Up :
    (rb : RoleBinding) (w : World)
    → Up w
    → Up (record w { role_bindings = put (key_of rb.meta) (some rb) w.role_bindings })
put-Up rb w h = (put-WellKeyed rb w.role_bindings h.0, h.1)

create-Success : (rb : RoleBinding) (w : World) → Up w → Success Up (create_role_binding rb w)
create-Success rb w h = record {
  value = tt;
  is_ok = rw h.1 refl;
  stays_up = (rw h.1 (put-WellKeyed rb w.role_bindings h.0), rw h.1 refl);
}

pub serving : (key : ObjectKey) → IsServing client client_laws runtime key Up
serving key = record {
  get_role_binding-up = λ k w h. rw (read-same k w) h;
  get_role_binding-answers = read-answers;
  create_role_binding-serves = λ rb w h none_there. create-Success rb w h;
  update_role_binding-serves =
      λ rb old w h at same_role. record { value = tt; is_ok = refl; stays_up = put-Up rb w h };
  delete_role_binding-serves = λ rb w h at. record {
    value = tt;
    is_ok = refl;
    stays_up = (put-none-WellKeyed (key_of rb.meta) w.role_bindings h.0, h.1);
  };
  update_binding_status-serves = λ b w is_key h. record { value = tt; is_ok = refl; stays_up = h };
  now-up = λ w h. h;
  set_status_condition-up = λ cs x w h. h;
  record_event-up = λ e w h. h;
  observe-up = λ m w h. h;
}
