-- ===== src/Webhook/Unique.antt =====
-- internal/webhook/rbacgroupbinding_webhook.go: what the admission of bindings keeps true of a namespace when
-- requests are decided one after the other.
use mathlib.Core.List.{Mem}
use directory_rbac_operator.Base.{
  arith, String, ◌≡◌, ◌≢◌, ◌⊎◌, subst, refl, sym, ap, ◌∙◌, ◌==◌, eq_iff, Option, none, some, List,
  inl, inr, Bool-cases, if◌then◌else◌,
}
use directory_rbac_operator.Go.Action.{ok, Action, call, map_err, with_error, wrapping}
use directory_rbac_operator.Go.Action.Bind.{>>=-continues, wrapping-continues}
use directory_rbac_operator.Go.Errors.{GoError}
use directory_rbac_operator.Api.{RbacGroupBinding}
use directory_rbac_operator.Webhook.{
  binding_name, maps_same, duplicate_text, reject_duplicate, validate_create, validate_update,
}
use directory_rbac_operator.Webhook.Check.{check_iff}
use directory_rbac_operator.Webhook.Conflict.{MapsSame, Compatible, maps_same-MapsSame}

-- The bindings of a namespace, by name.
abbrev pub Store : Type 0
Store = String → Option RbacGroupBinding

abbrev pub set : String → Option RbacGroupBinding → Store → Store
set name v store n = if n == name then v else store n

-- Bindings are stored under their names, and no two have the same groupDN and a role of the same kind and name.
pub record IsUnique (store : Store) : Type 0 where
  pub named : (n : String) (b : RbacGroupBinding) → store n ≡ some b → b.meta.name ≡ n
  pub distinct :
      (n m : String) (a b : RbacGroupBinding)
      → store n ≡ some a
      → store m ≡ some b
      → n ≢ m
      → ¬ MapsSame a b

MapsSame-symm : (a b : RbacGroupBinding) → MapsSame a b → MapsSame b a
MapsSame-symm a b (group, kind, name) = (sym group, sym kind, sym name)

set-none-some :
    (store : Store) (name n : String) (b : RbacGroupBinding)
    → set name none store n ≡ some b
    → store n ≡ some b
set-none-some store name n b h = ground (arith, h)

delete-IsUnique : (store : Store) (name : String) → IsUnique store → IsUnique (set name none store)
delete-IsUnique store name u = record {
  named = λ n b h. u.named n b (set-none-some store name n b h);
  distinct = λ n m a b h k.
      u.distinct n m a b (set-none-some store name n a h) (set-none-some store name m b k);
}

set-some-cases :
    (store : Store) (name n : String) (b x : RbacGroupBinding)
    → set name (some b) store n ≡ some x
    → ((n ≡ name) × (b ≡ x)) ⊎ ((n ≢ name) × (store n ≡ some x))
set-some-cases store name n b x h = elim (Bool-cases (n == name)) [
  | inl p ↦ inl ((eq_iff n name).0 p, ground (arith, p, h))
  | inr p ↦ inr ((λ e. ground (arith, p, eq_iff n name, e)), ground (arith, p, h))
]

write-IsUnique :
    (store : Store) (b : RbacGroupBinding)
    → IsUnique store
    → ((n : String) (x : RbacGroupBinding) → store n ≡ some x → Compatible b x)
    → IsUnique (set b.meta.name (some b) store)
write-IsUnique store b u differs = record {
  named = λ n x h. elim (set-some-cases store _ n b x h) [
    | inl (e, same) ↦ ap (λ y. y.meta.name) (sym same) ∙ sym e
    | inr (ne, at) ↦ u.named n x at
  ];
  distinct = λ n m x y h k ne. elim (set-some-cases store _ n b x h) [
    | inl (e, same) ↦ elim (set-some-cases store _ m b y k) [
      | inl (e', same') ↦ absurd (ne (e ∙ sym e'))
      | inr (ne', at) ↦
          subst (λ z. ¬ MapsSame z y) same
            (λ q. differs m y at (λ e'. ne' (sym (u.named m y at) ∙ e')) (MapsSame-symm b y q))
    ]
    | inr (ne', at) ↦ elim (set-some-cases store _ m b y k) [
      | inl (e, same) ↦
          subst (λ z. ¬ MapsSame x z) same (differs n x at (λ q. ne' (sym (u.named n x at) ∙ q)))
      | inr (ne'', at') ↦ u.distinct n m x y at at' ne
    ]
  ];
}

module _ {W E : Type 0} (quote : String → String)
    (list : String → Action W E (List RbacGroupBinding)) where
  -- The validator listed the whole namespace, and accepted the binding.
  pub record IsAdmitted (validate : RbacGroupBinding → Action W (GoError E) (Unit {0}))
      (store : Store) (b : RbacGroupBinding) : Type 0 where
    pub world : W
    pub items : List RbacGroupBinding
    pub listed : (list b.meta.namespace world).0 ≡ ok items
    pub complete : (n : String) (x : RbacGroupBinding) → store n ≡ some x → Mem x items
    pub accepted : (validate b world).0 ≡ ok tt

  -- One request after another: each is decided on what those before it left.
  pub data Reachable : Store → Type 0 where
    start : Reachable (λ n. none)
    created :
        (store : Store) (b : RbacGroupBinding)
        → Reachable store
        → IsAdmitted (validate_create quote list) store b
        → Reachable (set b.meta.name (some b) store)
    updated :
        (store : Store) (old b : RbacGroupBinding)
        → Reachable store
        → IsAdmitted (validate_update quote list old) store b
        → Reachable (set b.meta.name (some b) store)
    deleted : (store : Store) (name : String) → Reachable store → Reachable (set name none store)

  admitted-Compatible :
      (store : Store) (b : RbacGroupBinding)
      → IsAdmitted (reject_duplicate quote list) store b
      → (n : String) (x : RbacGroupBinding) → store n ≡ some x
      → Compatible b x
  unfolding reject_duplicate call map_err with_error wrapping
  admitted-Compatible store b a n x at ne =
      let items =
        wrapping-continues _ _ (call (list b.meta.namespace)) a.world a.items (rw a.listed refl) in
      let goes_on = ap (λ p. p.0) (>>=-continues _ _ a.world a.items items) in
      (maps_same-MapsSame x b).0 (
        (check_iff binding_name maps_same (duplicate_text quote) E b a.items _).0
          (sym goes_on ∙ a.accepted) x (a.complete n x at) ne)

  -- As long as requests are decided one after the other on complete listings, no two bindings of a namespace
  -- have the same groupDN and a role of the same kind and name, whatever creates, updates and deletes there were.
  pub Reachable-IsUnique : (store : Store) → Reachable store → IsUnique store
  unfolding validate_create validate_update
  Reachable-IsUnique store start = record {
    named = λ n b h. ground (arith, h);
    distinct = λ n m a b h k ne. absurd (ground (arith, h));
  }
  Reachable-IsUnique _ (created store b r a) =
      write-IsUnique store b (Reachable-IsUnique store r) (admitted-Compatible store b a)
  Reachable-IsUnique _ (updated store old b r a) =
      write-IsUnique store b (Reachable-IsUnique store r) (admitted-Compatible store b a)
  Reachable-IsUnique _ (deleted store name r) =
      delete-IsUnique store name (Reachable-IsUnique store r)
