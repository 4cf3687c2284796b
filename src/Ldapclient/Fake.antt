-- ===== src/Ldapclient/Fake.antt =====
-- internal/ldapclient/fake/fake_grouper.go: the directory in memory that the Go tests resolve groups in.
use directory_rbac_operator.Base.{
  String, ◌+++◌, ◌≡◌, ◌↔◌, ◌⊎◌, arith, true, Option, Option-cases, none, some, List,
}
use directory_rbac_operator.Go.Errors.{GoError, group_not_found, wrap, is_group_not_found}
use directory_rbac_operator.Go.Action.{Result, ok, err}
use directory_rbac_operator.Ldapclient.Limiters.{lookup}
use directory_rbac_operator.Ldapclient.Unreported.{reports_absence}

-- Grouper, whose maps are their entries.
pub record FakeGrouper (E : Type 0) : Type 0 where
  pub groups : List (String × List String)
  pub errors : List (String × GoError E)

module _ {E : Type 0} where
  -- What GetGroupMembers does with the entry of Groups.
  unfoldable pub on_fake_group : String → Option (List String) → Result (GoError E) (List String)
  on_fake_group dn none = err (wrap "" group_not_found (": " +++ dn))
  on_fake_group dn (some members) = ok members

  -- What it does with the entry of Errors.
  unfoldable pub on_fake_error :
      FakeGrouper E → String → Option (GoError E) → Result (GoError E) (List String)
  unfolding on_fake_group
  on_fake_error g dn (some e) = err e
  on_fake_error g dn none = on_fake_group dn (lookup dn g.groups)

  unfoldable pub get_fake_members : FakeGrouper E → String → Result (GoError E) (List String)
  unfolding on_fake_error
  get_fake_members g dn = on_fake_error g dn (lookup dn g.errors)

  -- The fake reports a group as not found exactly when it has no entry for it, or an error that says so.
  pub get_fake_members-absence :
      (g : FakeGrouper E) (dn : String)
      → (reports_absence (get_fake_members g dn) ≡ true) ↔ (
          ((e : GoError E) × (lookup dn g.errors ≡ some e) × (is_group_not_found e ≡ true))
          ⊎ ((lookup dn g.errors ≡ none) × (lookup dn g.groups ≡ none)))
  unfolding get_fake_members on_fake_error on_fake_group reports_absence is_group_not_found
  get_fake_members-absence g dn =
      ground (arith, Option-cases (lookup dn g.errors), Option-cases (lookup dn g.groups))
