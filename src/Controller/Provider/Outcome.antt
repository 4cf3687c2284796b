-- ===== src/Controller/Provider/Outcome.antt =====
-- internal/controller/ldapprovider_controller.go: what the health check writes to a provider's status.
use directory_rbac_operator.Base.{
  String, ◌≡◌, ◌⊎◌, refl, sym, true, false, Bool, some, List, [], ◌∷◌, pos,
}
use directory_rbac_operator.Go.Errors.{GoError}
use directory_rbac_operator.Go.Action.{ok, err, pure, fail, reading, perform, ◌>>=◌, ◌>>◌}
use directory_rbac_operator.Kube.Objects.{ObjectKey, key_of, Condition, Timestamp}
use directory_rbac_operator.Metrics.{sync_total}
use directory_rbac_operator.Kube.Client.{ProviderStore}
use directory_rbac_operator.Api.{
  LdapProvider, LdapProviderStatus, condition_ready, condition_degraded, reason_sync_succeeded,
  reason_ldap_unreachable, reason_invalid_spec,
}
use directory_rbac_operator.Controller.Common.{find_condition, set_conditions}
use directory_rbac_operator.Controller.Laws.{RuntimeLaws}
use directory_rbac_operator.Controller.Conditions.{
  Flag, set_conditions-AllShow, set_conditions-others, Shows-Flag, ready≢degraded,
}
use directory_rbac_operator.Controller.Stored.{Refused, write_status}
use directory_rbac_operator.Controller.Stored
use directory_rbac_operator.Controller.Provider.{
  ldap_provider_kind, condition, LdapProviderReconciler, verified, unverified, mark_ready,
  mark_degraded, mark_invalid_spec,
}

module _ {W E : Type 0} (r : LdapProviderReconciler W E) (store : ProviderStore r.client) where
  open r use {client, runtime, pinger}
  open runtime use {constants}
  open store use {providers}

  -- The status that the world holds for the provider at this key.
  abbrev pub HasStatus : ObjectKey → W → (LdapProviderStatus → Type 0) → Type 0
  HasStatus = Stored.HasStatus providers (λ p. p.status)

  -- Ready and Degraded with one reason, for the current generation.
  pub record Reports (p : LdapProvider) (ready degraded : Bool) (reason : String)
      (s : LdapProviderStatus) : Type 0 where
    pub generation : s.observed_generation ≡ p.meta.generation
    pub shows_ready : Flag constants condition_ready ready reason s.conditions
    pub shows_degraded : Flag constants condition_degraded degraded reason s.conditions

  -- Ready, with the time of the check.
  pub record IsVerified (p : LdapProvider) (time : Timestamp) (s : LdapProviderStatus)
      : Type 0 where
    pub reports : Reports p true false reason_sync_succeeded s
    pub verified_at : s.last_verified_time ≡ some time

  -- What the clock says once the outcome is counted in a world.
  abbrev pub time_of_check : W → Timestamp
  time_of_check w = (runtime.now (runtime.observe (sync_total ldap_provider_kind "ready") w)).0

  pub record IsUnreachable (p : LdapProvider) (s : LdapProviderStatus) : Type 0 where
    pub reports : Reports p false true reason_ldap_unreachable s
    pub kept_time : s.last_verified_time ≡ p.status.last_verified_time

  -- Not Ready, with whatever was said about Degraded before.
  pub record IsInvalid (p : LdapProvider) (s : LdapProviderStatus) : Type 0 where
    pub generation : s.observed_generation ≡ p.meta.generation
    pub shows_ready : Flag constants condition_ready false reason_invalid_spec s.conditions
    pub kept_degraded :
        find_condition s.conditions condition_degraded
        ≡ find_condition p.status.conditions condition_degraded
    pub kept_time : s.last_verified_time ≡ p.status.last_verified_time

  module _ (rt : RuntimeLaws runtime) where
    -- The two conditions that markReady and markDegraded set one after the other.
    two_flags :
        (ready degraded : Bool) (reason text text' : String) (cs : List Condition) (w : W)
        → let new =
            condition r condition_ready ready reason text
            ∷ condition r condition_degraded degraded reason text'
            ∷ [] in
          let cs' = (set_conditions runtime cs new w).0 in
          Flag constants condition_ready ready reason cs'
          × Flag constants condition_degraded degraded reason cs'
    two_flags ready degraded reason text text' cs w =
        let new : List Condition =
          condition r condition_ready ready reason text
          ∷ condition r condition_degraded degraded reason text'
          ∷ [] in
        let shows = set_conditions-AllShow runtime rt new cs w ((ready≢degraded, tt), (tt, tt)) in
        (Shows-Flag _ refl shows.0, Shows-Flag _ refl shows.1.0)

    verified-IsVerified :
        (p : LdapProvider) (w : W) (now : W) (text : String)
        → let new =
            condition r condition_ready true reason_sync_succeeded text
            ∷ condition r condition_degraded false reason_sync_succeeded ""
            ∷ [] in
          IsVerified p
            (runtime.now now).0
            (verified r p
              (runtime.now now).0
              (set_conditions runtime p.status.conditions new w).0).status
    unfolding verified
    verified-IsVerified p w now text =
        let (ready, degraded) =
          two_flags true false reason_sync_succeeded text "" p.status.conditions w in
        record {
          reports = record { generation = refl; shows_ready = ready; shows_degraded = degraded };
          verified_at = refl;
        }

    unverified-IsUnreachable :
        (p : LdapProvider) (w : W) (text : String)
        → let new =
            condition r condition_ready false reason_ldap_unreachable text
            ∷ condition r condition_degraded true reason_ldap_unreachable text
            ∷ [] in
          IsUnreachable p
            (unverified r p (set_conditions runtime p.status.conditions new w).0).status
    unfolding unverified
    unverified-IsUnreachable p w text =
        let (ready, degraded) =
          two_flags false true reason_ldap_unreachable text text p.status.conditions w in
        record {
          reports = record { generation = refl; shows_ready = ready; shows_degraded = degraded };
          kept_time = refl;
        }

    unverified-IsInvalid :
        (p : LdapProvider) (w : W) (text : String)
        → let new = condition r condition_ready false reason_invalid_spec text ∷ [] in
          IsInvalid p (unverified r p (set_conditions runtime p.status.conditions new w).0).status
    unfolding unverified
    unverified-IsInvalid p w text =
        let new : List Condition =
          condition r condition_ready false reason_invalid_spec text ∷ [] in
        record {
          generation = refl;
          shows_ready =
              Shows-Flag _ refl
                (set_conditions-AllShow runtime rt new p.status.conditions w (tt, tt)).0;
          kept_degraded =
              set_conditions-others runtime rt new p.status.conditions w condition_degraded
                ((λ e. ready≢degraded (sym e)), tt);
          kept_time = refl;
        }

    -- markReady asks for the next check after the interval and stores a status that reports this one, or returns the
    -- error with which the API server refused the status.
    pub mark_ready_lem :
        (p : LdapProvider) (w : W)
        → Refused (mark_ready r p w).0
          ⊎ (((mark_ready r p w).0 ≡ ok (record { requeue_after = p.spec.sync_interval }))
              × HasStatus (key_of p.meta) (mark_ready r p w).1 (IsVerified p (time_of_check w)))
    unfolding mark_ready ◌>>◌ ◌>>=◌ perform reading pure
    mark_ready_lem p w =
        write_status providers (λ x. x.status) _ _ _ _ _ (IsVerified p (time_of_check w)) _
          (store.update_provider_status-stored _ _) (verified-IsVerified p _ _ _) (λ w'. refl)

    -- markDegraded returns the cause and stores a status that reports it, or returns the error with which the
    -- API server refused the status.
    pub mark_degraded_lem :
        (p : LdapProvider) (cause : GoError E) (w : W)
        → Refused (mark_degraded r p cause w).0
          ⊎ (((mark_degraded r p cause w).0 ≡ err cause)
              × HasStatus (key_of p.meta) (mark_degraded r p cause w).1 (IsUnreachable p))
    unfolding mark_degraded ◌>>◌ ◌>>=◌ perform reading fail
    mark_degraded_lem p cause w =
        write_status providers (λ x. x.status) _ _ _ _ _ (IsUnreachable p) _
          (store.update_provider_status-stored _ _) (unverified-IsUnreachable p _ _) (λ w'. refl)

    -- markInvalidSpec asks for no further check and stores a status that is not Ready, or returns the error with
    -- which the API server refused the status.
    pub mark_invalid_spec_lem :
        (p : LdapProvider) (cause : GoError E) (w : W)
        → Refused (mark_invalid_spec r p cause w).0
          ⊎ (((mark_invalid_spec r p cause w).0 ≡ ok (record { requeue_after = pos 0 }))
              × HasStatus (key_of p.meta) (mark_invalid_spec r p cause w).1 (IsInvalid p))
    unfolding mark_invalid_spec ◌>>◌ ◌>>=◌ perform reading pure
    mark_invalid_spec_lem p cause w =
        write_status providers (λ x. x.status) _ _ _ _ _ (IsInvalid p) _
          (store.update_provider_status-stored _ _) (unverified-IsInvalid p _ _) (λ w'. refl)
