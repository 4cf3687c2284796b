-- ===== src/Controller/Resolving.antt =====
-- How the resolution of a group can fail, before the directory is reached or in it.
use directory_rbac_operator.Base.{String, ◌≡◌, ◌∙◌}
use directory_rbac_operator.Go.Errors.{GoError}
use directory_rbac_operator.Go.Action.{ok, err}
use directory_rbac_operator.Api.{LdapProvider}
use directory_rbac_operator.Controller.Common.{Grouper, GrouperResolver}
use directory_rbac_operator.Controller.Laws.{ResolverKeeps}

module _ {W E : Type 0} (grouper : GrouperResolver W E) where
  -- How resolving ended with an error.
  pub data FailsWith (p : LdapProvider) (dn : String) (w : W) (e : GoError E) : Type 0 where
    no_grouper : (grouper p w).0 ≡ err e → FailsWith p dn w e
    no_members :
        (g : Grouper W E)
        → (grouper p w).0 ≡ ok g
        → (g dn (grouper p w).1).0 ≡ err e
        → FailsWith p dn w e

  -- The world in which the failure is known.
  unfoldable pub after_failure :
      {p : LdapProvider} {dn : String} {w : W} {e : GoError E} → FailsWith p dn w e → W
  after_failure {p} {w = w} (no_grouper q) = (grouper p w).1
  after_failure {p} {dn} {w} (no_members g q f) = (g dn (grouper p w).1).1

  pub after_failure-keeps :
      {V : Type 0} {view : W → V} (resolver : ResolverKeeps grouper view) (p : LdapProvider)
      (dn : String) (w : W) (e : GoError E) (failed : FailsWith p dn w e)
      → view (after_failure failed) ≡ view w
  unfolding after_failure
  after_failure-keeps resolver p dn w e (no_grouper q) = (resolver.resolver-Keeps p).keeps w
  after_failure-keeps resolver p dn w e (no_members g q f) =
      (resolver.grouper-Keeps p w g dn q).keeps (grouper p w).1
      ∙ (resolver.resolver-Keeps p).keeps w
