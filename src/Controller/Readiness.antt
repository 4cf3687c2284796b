-- ===== src/Controller/Readiness.antt =====
-- internal/controller/readiness.go: the readiness of the operator, from the stored statuses of the providers.
pub mod Health
mod Tests
use directory_rbac_operator.Base.{
  pos, String, ◌+++◌, ◌≡◌, ◌↔◌, refl, sym, ap, ◌∙◌, ◌==◌, eq_iff, arith, Bool, true, false, not,
  Option, none, some, List, [], ◌∷◌, inl, inr, Bool-cases, if◌then◌else◌,
}
use directory_rbac_operator.Go.Errors.{GoError, plain, foreign}
use directory_rbac_operator.Go.Action.{
  Result, ok, err, ok≢err, Action, of_result, ◌>>=◌, call, wrapping, map_err, with_error,
}
use directory_rbac_operator.Go.Action.Bind.{>>=-continues, wrapping-continues}
use directory_rbac_operator.Kube.Objects.{Duration, Condition}
use directory_rbac_operator.Kube.Runtime.{Runtime}
use directory_rbac_operator.Api.{LdapProvider, condition_ready}
use directory_rbac_operator.Controller.Common.{find_condition}

-- time.Second
abbrev pub readiness_cache_timeout : Duration
readiness_cache_timeout = pos 1000000000

-- LDAPProviderReadiness: `list` is List of the reader under a context with the given timeout.
pub record LdapProviderReadiness (W E : Type 0) : Type 0 where
  pub list : Duration → Action W E (List LdapProvider)
  pub timeout : Duration

unfoldable pub new_ldap_provider_readiness :
    {W E : Type 0} → (Duration → Action W E (List LdapProvider)) → LdapProviderReadiness W E
new_ldap_provider_readiness list = record { list = list; timeout = readiness_cache_timeout }

module _ {W E : Type 0} (runtime : Runtime W E) where
  open runtime use {constants}

  -- The two tests of the loop: the error that ends it, if there is one.
  unfoldable pub complaint : LdapProvider → Option Condition → Option String
  complaint p none =
      some
        ("LDAPProvider " +++ (runtime.quote p.meta.name +++ " has not completed a readiness check"))
  complaint p (some c) =
      if not (c.status == constants.condition_true)
      then some
          ("LDAPProvider " +++ (runtime.quote p.meta.name +++ (" is not ready: " +++ c.reason)))
      else none

  -- The early return.
  unfoldable pub unless :
      Option String → Result (GoError E) (Unit {0}) → Result (GoError E) (Unit {0})
  unless none rest = rest
  unless (some text) rest = err (plain text)

  -- The loop of Check.
  unfoldable pub check_providers : List LdapProvider → Result (GoError E) (Unit {0})
  check_providers [] = ok tt
  check_providers (p ∷ providers) =
      unless (complaint p (find_condition p.status.conditions condition_ready))
        (check_providers providers)

  unfoldable pub check : LdapProviderReadiness W E → Action W (GoError E) (Unit {0})
  check r = do
    providers ← wrapping "list LDAPProviders from cache: " "" (call (r.list r.timeout))
    of_result (check_providers providers)

  -- The stored status says Ready.
  abbrev pub Serves : LdapProvider → Type 0
  Serves p =
      (c : Condition) × (find_condition p.status.conditions condition_ready ≡ some c)
      × (c.status ≡ constants.condition_true)

  abbrev pub AllServe : List LdapProvider → Type 0
  AllServe [] = Unit
  AllServe (p ∷ providers) = Serves p × AllServe providers

  unless_iff :
      (p : LdapProvider) (o : Option Condition) (rest : Result (GoError E) (Unit {0}))
      → (unless (complaint p o) rest ≡ ok tt) ↔ (
          ((c : Condition) × (o ≡ some c) × (c.status ≡ constants.condition_true)) × (rest ≡ ok tt))
  unfolding unless complaint
  unless_iff p none rest = (λ h. absurd (ok≢err (sym h)), λ ((c, q, _), _). cc)
  unless_iff p (some c) rest = elim (Bool-cases (c.status == constants.condition_true)) [
    | inl t ↦ rw t (λ h. ((c, refl, (eq_iff _ _).0 t), h), λ (_, h). h)
    | inr t ↦ rw t (
      λ h. absurd (ok≢err (sym h)),
      λ ((c', q, is_true), _).
          ground (arith, t, q, is_true, eq_iff c.status constants.condition_true),
    )
  ]

  check_providers_iff : (ps : List LdapProvider) → (check_providers ps ≡ ok tt) ↔ AllServe ps
  unfolding check_providers
  check_providers_iff [] = (λ h. tt, λ h. refl)
  check_providers_iff (p ∷ ps) =
      let (sound, complete) = check_providers_iff ps in
      let (fine, passes) =
        unless_iff p (find_condition p.status.conditions condition_ready) (check_providers ps) in
      (λ h. ((fine h).0, sound (fine h).1), λ (s, h). passes (s, complete h))

  pub check_iff :
      (r : LdapProviderReadiness W E) (providers : List LdapProvider) (w : W)
      → (r.list r.timeout w).0 ≡ ok providers
      → ((check r w).0 ≡ ok tt) ↔ AllServe providers
  unfolding check of_result call map_err with_error
  check_iff r providers w h =
      let listed = wrapping-continues _ _ (call (r.list r.timeout)) w providers (rw h refl) in
      let same = ap (λ m. m.0) (>>=-continues _ _ w providers listed) in
      let (sound, complete) = check_providers_iff providers in
      (λ q. sound (sym same ∙ q), λ q. same ∙ complete q)
