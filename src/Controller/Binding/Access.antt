-- ===== src/Controller/Binding/Access.antt =====
-- What a binding promises, without names of calls and without the order of subjects: a role for a bag of subjects,
-- which the operator leaves alone, sets to the wanted one, or takes away.
use mathlib.Core.List.{Perm}
use mathlib.Core.Quot.{Quot}
use directory_rbac_operator.Base.{◌≡◌, ◌≢◌, refl, sym, ap, ◌∙◌, Option, none, some}
use directory_rbac_operator.Kube.Objects.{ObjectKey, key_of, RbacRoleRef, Subject, RoleBinding}
use directory_rbac_operator.Kube.Client.{Wrote}

-- A role, and whom it is given to: lists that are permutations of each other are one bag.
pub record Grant : Type 0 where
  pub role : RbacRoleRef
  pub holders : Quot (Perm {A = Subject})

abbrev pub grant_of : RoleBinding → Grant
grant_of rb = record { role = rb.role_ref; holders = Quot.mk rb.subjects }

abbrev pub Access : Type 0
Access = ObjectKey → Option Grant

abbrev pub grant_at : Option RoleBinding → Option Grant
grant_at none = none
grant_at (some rb) = some (grant_of rb)

abbrev pub access : (ObjectKey → Option RoleBinding) → Access
access view key = grant_at (view key)

-- One step of the operator on a key. Access is taken away only where another role is wanted than the one that is
-- there, and on no other key does anything change.
pub data AccessStep (key : ObjectKey) (want : Grant) (before after : Access) : Type 0 where
  kept : ((k : ObjectKey) → after k ≡ before k) → AccessStep key want before after
  granted :
      after key ≡ some want
      → ((k : ObjectKey) → k ≢ key → after k ≡ before k)
      → AccessStep key want before after
  revoked :
      (old : Grant)
      → before key ≡ some old
      → old.role ≢ want.role
      → after key ≡ none
      → ((k : ObjectKey) → k ≢ key → after k ≡ before k)
      → AccessStep key want before after

pub same-AccessStep :
    {key : ObjectKey} {want : Grant} {before after : ObjectKey → Option RoleBinding}
    → after ≡ before
    → AccessStep key want (access before) (access after)
same-AccessStep same = AccessStep.kept (λ k. ap (λ v. access v k) same)

pub Wrote-granted :
    (sent : RoleBinding) {before after : ObjectKey → Option RoleBinding}
    → Wrote sent before after
    → access after (key_of sent.meta) ≡ some (grant_of sent)
Wrote-granted sent wrote =
    let stored : grant_of wrote.stored ≡ grant_of sent =
      rw (wrote.content.same_role_ref, wrote.content.same_subjects) refl in
    ap grant_at wrote.at_key ∙ ap some stored

pub Wrote-AccessStep :
    {key : ObjectKey} {want : Grant} (sent : RoleBinding)
    {before after : ObjectKey → Option RoleBinding}
    → Wrote sent before after
    → key_of sent.meta ≡ key
    → grant_of sent ≡ want
    → AccessStep key want (access before) (access after)
Wrote-AccessStep sent {after = after} wrote is_key is_want =
    AccessStep.granted (ap (access after) (sym is_key) ∙ Wrote-granted sent wrote ∙ ap some is_want)
      (λ k other. ap grant_at (wrote.elsewhere k (λ e. other (e ∙ is_key))))
