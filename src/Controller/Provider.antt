-- ===== src/Controller/Provider.antt =====
-- internal/controller/ldapprovider_controller.go: the health check of providers, and the finalizer that keeps
-- a provider from being deleted while bindings refer to it.
pub mod Finalizer
pub mod Outcome
pub mod Transport
pub mod Health
pub mod Release
pub mod ReleaseTests
pub mod Tests
use directory_rbac_operator.Base.{
  ℤ, pos, String, ◌==◌, starts_with, Bool, true, false, not, Option, none, some, List, [], ◌∷◌,
  if◌then◌else◌,
}
use directory_rbac_operator.Go.Errors.{GoError, plain, error_text, foreign_test}
use directory_rbac_operator.Go.Action.{
  Result, ok, err, Action, Effect, pure, fail, reading, try, deferring, perform, ◌>>=◌, ◌>>◌, call,
}
use directory_rbac_operator.Kube.Objects.{
  ObjectKey, key_of, is_zero, Duration, Timestamp, Condition,
}
use directory_rbac_operator.Kube.Client.{Client}
use directory_rbac_operator.Kube.Runtime.{Runtime}
use directory_rbac_operator.Metrics.{sync_total, sync_duration, ldap_errors_total}
use directory_rbac_operator.Api.{
  LdapProvider, LdapProviderSpec, TlsConfig, RbacGroupBinding, ClusterRbacGroupBinding,
  condition_ready, condition_degraded, reason_sync_succeeded, reason_ldap_unreachable,
  reason_invalid_spec,
}
use directory_rbac_operator.Controller.Common.{
  Pinger, PingerResolver, ReconcileResult, record_warning, set_conditions,
}

abbrev pub ldap_provider_kind : String
ldap_provider_kind = "LDAPProvider"

abbrev pub in_use_protection_finalizer : String
in_use_protection_finalizer = "ldaprbac.io/in-use-protection"

-- 30 * time.Second
abbrev pub in_use_recheck_interval : Duration
in_use_recheck_interval = pos 30000000000

-- ContainsFinalizer, AddFinalizer and RemoveFinalizer of package controllerutil
pub record FinalizerLibrary : Type 0 where
  pub contains_finalizer : LdapProvider → String → Bool
  pub add_finalizer : LdapProvider → String → LdapProvider
  pub remove_finalizer : LdapProvider → String → LdapProvider

-- LDAPProviderReconciler; `forget_limiter` is Delete of its limiters, if it has any.
pub record LdapProviderReconciler (W E : Type 0) : Type 0 where
  pub client : Client W E
  pub runtime : Runtime W E
  pub pinger : PingerResolver W E
  pub forget_limiter : Option (String → Effect W)
  pub finalizers : FinalizerLibrary

abbrev pub no_tls_choice : String
no_tls_choice =
    "ldap:// requires either tlsConfig.caSecretRef (for StartTLS) or insecureSkipTLS: true"

-- A reference to a secret with the CA bundle is there.
unfoldable pub has_ca : Option TlsConfig → Bool
has_ca none = false
has_ca (some tls) = elim tls.ca_secret_ref [ none ↦ false | some _ ↦ true ]

unfoldable pub validate_tls_config :
    {W E : Type 0} → LdapProviderSpec → Action W (GoError E) (Unit {0})
unfolding has_ca
validate_tls_config spec =
    if starts_with spec.url "ldaps://"
    then pure tt
    else if spec.insecure_skip_tls
    then pure tt
    else if has_ca spec.tls_config
    then pure tt
    else fail (plain no_tls_choice)

module _ {W E : Type 0} (r : LdapProviderReconciler W E) where
  open r use {client, runtime, pinger, forget_limiter, finalizers}
  open finalizers use {contains_finalizer, add_finalizer, remove_finalizer}
  open runtime use {constants}

  abbrev pub condition : String → Bool → String → String → Condition
  condition type status reason text = record {
    type = type;
    status = if status then constants.condition_true else constants.condition_false;
    reason = reason;
    message = text;
  }

  unfoldable pub verified : LdapProvider → Timestamp → List Condition → LdapProvider
  verified p now conditions = record p {
    status = record {
      observed_generation = p.meta.generation;
      conditions = conditions;
      last_verified_time = some now;
    };
  }

  unfoldable pub unverified : LdapProvider → List Condition → LdapProvider
  unverified p conditions =
      let status = p.status in
      record p {
        status = record status { observed_generation = p.meta.generation; conditions = conditions };
      }

  unfoldable pub mark_ready : LdapProvider → Action W (GoError E) ReconcileResult
  unfolding verified
  mark_ready p = do
    perform (runtime.observe (sync_total ldap_provider_kind "ready"))
    now ← reading runtime.now
    conditions ← reading (
        set_conditions runtime p.status.conditions (
          condition condition_ready true reason_sync_succeeded "bind succeeded"
          ∷ condition condition_degraded false reason_sync_succeeded ""
          ∷ []))
    call (client.update_provider_status (verified p now conditions))
    pure (record { requeue_after = p.spec.sync_interval })

  unfoldable pub mark_degraded : LdapProvider → GoError E → Action W (GoError E) ReconcileResult
  unfolding unverified
  mark_degraded p cause = do
    let text = error_text runtime.error_text cause
    perform (record_warning runtime ldap_provider_kind (key_of p.meta) "BindFailed" text)
    perform (runtime.observe (sync_total ldap_provider_kind "degraded"))
    perform (runtime.observe (ldap_errors_total p.meta.name))
    conditions ← reading (
        set_conditions runtime p.status.conditions (
          condition condition_ready false reason_ldap_unreachable text
          ∷ condition condition_degraded true reason_ldap_unreachable text
          ∷ []))
    call (client.update_provider_status (unverified p conditions))
    fail cause

  unfoldable pub mark_invalid_spec : LdapProvider → GoError E → Action W (GoError E) ReconcileResult
  unfolding unverified
  mark_invalid_spec p cause = do
    let text = error_text runtime.error_text cause
    perform (record_warning runtime ldap_provider_kind (key_of p.meta) "InvalidSpec" text)
    perform (runtime.observe (sync_total ldap_provider_kind "invalid_spec"))
    conditions ← reading (
        set_conditions runtime p.status.conditions
          (condition condition_ready false reason_invalid_spec text ∷ []))
    call (client.update_provider_status (unverified p conditions))
    pure (record { requeue_after = pos 0 })

  -- hasDependents after the first List
  unfoldable pub after_bindings : LdapProvider → List RbacGroupBinding → Action W (GoError E) Bool
  after_bindings p (b ∷ bindings) = pure true
  after_bindings p [] = do
    cluster_bindings ← call (client.list_cluster_bindings_of p.meta.name 1)
    pure (elim cluster_bindings [ [] ↦ false | _ ∷ _ ↦ true ])

  unfoldable pub has_dependents : LdapProvider → Action W (GoError E) Bool
  has_dependents p = do
    bindings ← call (client.list_bindings_of p.meta.name 1)
    after_bindings p bindings

  unfoldable pub forget : Option (String → Effect W) → String → Effect W
  forget none name w = w
  forget (some delete) name w = delete name w

  -- finalize after hasDependents
  unfoldable pub on_in_use : LdapProvider → Bool → Action W (GoError E) ReconcileResult
  on_in_use p true = do
    perform (
        record_warning runtime ldap_provider_kind (key_of p.meta) "DeletionBlocked"
          "bindings still reference this provider")
    pure (record { requeue_after = in_use_recheck_interval })
  on_in_use p false = do
    perform (forget forget_limiter p.meta.name)
    call (client.update_provider (remove_finalizer p in_use_protection_finalizer))
    pure (record { requeue_after = pos 0 })

  unfoldable pub finalize : LdapProvider → Action W (GoError E) ReconcileResult
  finalize p =
      if not (contains_finalizer p in_use_protection_finalizer)
      then pure (record { requeue_after = pos 0 })
      else (do in_use ← has_dependents p; on_in_use p in_use)

  unfoldable pub on_ping :
      LdapProvider → Result (GoError E) (Unit {0}) → Action W (GoError E) ReconcileResult
  on_ping p (err e) = mark_degraded p e
  on_ping p (ok _) = mark_ready p

  unfoldable pub on_pinger :
      LdapProvider → Result (GoError E) (Pinger W E) → Action W (GoError E) ReconcileResult
  on_pinger p (err e) = mark_degraded p e
  on_pinger p (ok ping) = do answer ← try ping; on_ping p answer

  unfoldable pub on_valid :
      LdapProvider → Result (GoError E) (Unit {0}) → Action W (GoError E) ReconcileResult
  on_valid p (err e) = mark_invalid_spec p e
  on_valid p (ok _) = do found ← try (pinger p); on_pinger p found

  -- The finalizer, which is added to a provider without it.
  unfoldable pub protect : LdapProvider → Action W (GoError E) LdapProvider
  protect p =
      if contains_finalizer p in_use_protection_finalizer
      then pure p
      else call (client.update_provider (add_finalizer p in_use_protection_finalizer))

  unfoldable pub on_provider :
      Result (GoError E) LdapProvider → Action W (GoError E) ReconcileResult
  on_provider (err e) =
      if foreign_test client.is_not_found e then pure (record { requeue_after = pos 0 }) else fail e
  on_provider (ok p) =
      if not (is_zero p.meta.deletion_timestamp)
      then finalize p
      else (do p' ← protect p; valid ← try (validate_tls_config p'.spec); on_valid p' valid)

  unfoldable pub reconcile : ObjectKey → Action W (GoError E) ReconcileResult
  reconcile req =
      deferring (runtime.observe (sync_duration ldap_provider_kind))
        (do found ← try (call (client.get_provider req)); on_provider found)
