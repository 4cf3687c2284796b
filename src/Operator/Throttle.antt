-- ===== src/Operator/Throttle.antt =====
-- main.go: the connections that the whole operator asks of a provider's directory.
use directory_rbac_operator.Base.{
  String, ◌≡◌, refl, sym, ap, subst, ◌∙◌, some, List, [], ◌∷◌, length,
}
use directory_rbac_operator.Go.Errors.{GoError}
use directory_rbac_operator.Go.Action.{Result, ok, err, Action, and_then, ◌>>=◌}
use directory_rbac_operator.Go.Action.Bind.{>>=-pure}
use directory_rbac_operator.Go.Action.Keeps.{Keeps, wrapping-Keeps}
use directory_rbac_operator.Go.Action.Maintains.{
  Maintains, pure-Maintains, reading-Maintains, >>=-Maintains,
}
use directory_rbac_operator.Go.Sort.{Sorter}
use directory_rbac_operator.Kube.Objects.{ObjectKey}
use directory_rbac_operator.Api.{LdapProvider}
use directory_rbac_operator.Ldapclient.Library.{Library, Config}
use directory_rbac_operator.Ldapclient.Client.{get_group_members, ping}
use directory_rbac_operator.Ldapclient.Frame.{AllCallsKeep, get_group_members-Keeps, ping-Keeps}
use directory_rbac_operator.Ldapclient.Meter.{
  Meter, Spends, Spends-none, Spends-before, Spends-after,
}
use directory_rbac_operator.Ldapclient.Throttle.{Metered, get_group_members-Spends, ping-Spends}
use directory_rbac_operator.Ldapclient.Limiters.{
  RateLibrary, Limiters, lookup, entries_of, get-lookup, get-found,
}
use directory_rbac_operator.Controller.Provider.{FinalizerLibrary}
use directory_rbac_operator.Controller.Factory.{
  CertificateLibrary, GrouperFactory, limiter_for, new_client, grouper, pinger,
}
use directory_rbac_operator.Controller.Factory.Frame.{secret_value-Keeps, tls_config-Keeps}
use directory_rbac_operator.Operator.{Manager, get_limiter, grouper_factory}
use directory_rbac_operator.Operator.Budget.{SharesLimiters, new_client-found}

-- What happens in the operator, in the order in which it happens: a group is resolved or the health of a provider is
-- checked, on a connection that the factory makes for it, or something else goes on.
pub data Turn (W : Type 0) : Type 0 where
  resolves : LdapProvider → String → Turn W
  checks : LdapProvider → Turn W
  elsewhere : (W → W) → Turn W

module _ {W E C T R L N P : Type 0} (lib : Library W E C T L N) (certs : CertificateLibrary T P)
    (rates : RateLibrary W R L) (s : Sorter String) (finalizers : FinalizerLibrary)
    (mgr : Manager W E R L) where
  abbrev factory : GrouperFactory W E L
  factory = grouper_factory lib certs rates s finalizers mgr

  unfoldable pub take_turn : Turn W → W → W
  take_turn (resolves p dn) w =
      ((do get_members ← grouper lib certs factory s p; get_members dn) w).1
  take_turn (checks p) w = ((do check ← pinger lib certs factory p; check) w).1
  take_turn (elsewhere f) w = f w

  unfoldable pub take_turns : List (Turn W) → W → W
  take_turns [] w = w
  take_turns (turn ∷ turns) w = take_turns turns (take_turn turn w)

  -- A limiter is held under a name.
  abbrev pub Held : String → L → W → Type 0
  Held name limiter w = lookup name (entries_of rates (mgr.limiters w)) ≡ some limiter

  -- Turns on providers of one name; elsewhere no connection is made and the limiter of the name stays.
  unfoldable pub Concern : String → (W → Meter) → List (Turn W) → Type 0
  Concern name meter [] = Unit
  Concern name meter (resolves p dn ∷ turns) = (p.meta.name ≡ name) × Concern name meter turns
  Concern name meter (checks p ∷ turns) = (p.meta.name ≡ name) × Concern name meter turns
  Concern name meter (elsewhere f ∷ turns) =
      ((w : W) → (meter (f w) ≡ meter w) × ((l : L) → Held name l w → Held name l (f w)))
      × Concern name meter turns

-- Neither reading a secret nor the variable of the limiters is metered.
pub record Unmetered {W E R L : Type 0} (mgr : Manager W E R L) (meter : W → Meter) : Type 0 where
  pub get_secret-Keeps : (key : ObjectKey) → Keeps meter (mgr.client.get_secret key)
  pub set_limiters-keeps : (l : Limiters R L) (w : W) → meter (mgr.set_limiters l w) ≡ meter w

module _ {W E C T R L N P : Type 0} (lib : Library W E C T L N) (certs : CertificateLibrary T P)
    (rates : RateLibrary W R L) (s : Sorter String) (finalizers : FinalizerLibrary)
    (mgr : Manager W E R L) (shares : SharesLimiters mgr) (limiter : L) (meter : W → Meter)
    (metered : Metered lib limiter meter) (unmetered : Unmetered mgr meter)
    (apart : AllCallsKeep lib mgr.limiters) (name : String) where
  abbrev Holds : W → Type 0
  Holds = Held lib certs rates s finalizers mgr name limiter

  abbrev factory' : GrouperFactory W E L
  factory' = grouper_factory lib certs rates s finalizers mgr

  -- The limiter is there, and the meter stands where it stood.
  abbrev Still : Meter → W → Type 0
  Still m w = (meter w ≡ m) × Holds w

  keeps-Holds : {X A : Type 0} (m : Action W X A) → Keeps mgr.limiters m → Maintains Holds m
  keeps-Holds m k = record {
    maintained = λ w held. ap (λ l. lookup name (entries_of rates l)) (k.keeps w) ∙ held;
  }

  keeps-Still :
      {X A : Type 0} (m : Action W X A) (start : Meter)
      → Keeps meter m
      → Keeps mgr.limiters m
      → Maintains (Still start) m
  keeps-Still m start h k = record {
    maintained = λ w still. (h.keeps w ∙ still.0, (keeps-Holds m k).maintained w still.1);
  }

  limiter_for-Still :
      (start : Meter) (w : W)
      → Still start w
      → Still start (limiter_for factory'.get_limiter name w).1
  unfolding grouper_factory limiter_for get_limiter
  limiter_for-Still start w (stands, held) =
      let found = get-found rates name (mgr.limiters w) w limiter held in
      (
        unmetered.set_limiters-keeps _ _ ∙ ap meter found.1 ∙ stands,
        ap (λ l. lookup name (entries_of rates l)) (shares.get-set _ _)
            ∙ get-lookup rates name (mgr.limiters w) w
            ∙ ap some found.0,
      )

  new_client-Still :
      (p : LdapProvider) (start : Meter)
      → p.meta.name ≡ name
      → Maintains (Still start) (new_client lib certs factory' p)
  unfolding new_client grouper_factory
  new_client-Still p start same_name =
      let secret = p.spec.bind_password_secret_ref in
      let read = unmetered.get_secret-Keeps in
      let shared = shares.get_secret-Keeps in
      >>=-Maintains _ _
        (keeps-Still _ start
          (wrapping-Keeps _ _ _ (secret_value-Keeps lib certs factory' meter read secret))
          (wrapping-Keeps _ _ _ (secret_value-Keeps lib certs factory' mgr.limiters shared secret)))
        (λ password.
          >>=-Maintains _ _
            (keeps-Still _ start (tls_config-Keeps lib certs factory' meter read p)
              (tls_config-Keeps lib certs factory' mgr.limiters shared p))
            (λ tls.
              >>=-Maintains _ _
                (reading-Maintains _ (
                  subst
                    (λ n.
                      (w : W)
                      → Still start w
                      → Still start (limiter_for factory'.get_limiter n w).1)
                    (sym same_name) (limiter_for-Still start)))
                (λ l. pure-Maintains _)))

  -- At most one connection, and the limiter stays.
  abbrev Turned : W → W → Type 0
  Turned w w' = Spends meter 1 w w' × Holds w'

  -- What a call does after a client was built, or could not be.
  after_built-Turned :
      {A : Type 0} (r : Result (GoError E) (Config T L)) (m : Config T L → Action W (GoError E) A)
      (w w' : W)
      → Still (meter w) w'
      → ((cfg : Config T L) → r ≡ ok cfg → Spends meter 1 w' (m cfg w').1)
      → ((cfg : Config T L) → Keeps mgr.limiters (m cfg))
      → Turned w (and_then r m w').1
  unfolding and_then
  after_built-Turned (ok cfg) m w w' still spends keeps =
      let kept = keeps-Holds (m cfg) (keeps cfg) in
      (Spends-before meter 1 w w' _ still.0 (spends cfg refl), kept.maintained w' still.1)
  after_built-Turned (err e) m w w' still spends keeps = (Spends-none meter 1 w w' still.0, still.1)

  built-Turned :
      {A : Type 0} (p : LdapProvider) (m : Config T L → Action W (GoError E) A) (w : W)
      → p.meta.name ≡ name
      → Holds w
      → ((cfg : Config T L) → cfg.limiter ≡ some limiter → (v : W) → Spends meter 1 v (m cfg v).1)
      → ((cfg : Config T L) → Keeps mgr.limiters (m cfg))
      → Turned w ((new_client lib certs factory' p >>= m) w).1
  unfolding ◌>>=◌
  built-Turned p m w same_name held spends keeps =
      let held' = ap (λ n. lookup n (entries_of rates (mgr.limiters w))) same_name ∙ held in
      after_built-Turned _ m w _
        ((new_client-Still p (meter w) same_name).maintained w (refl, held))
        (λ cfg q.
          spends cfg
            (new_client-found lib certs rates s finalizers mgr shares p w cfg limiter q held') _)
        keeps

  resolves-Turned :
      (p : LdapProvider) (dn : String) (w : W)
      → p.meta.name ≡ name
      → Holds w
      → Turned w (take_turn lib certs rates s finalizers mgr (resolves p dn) w)
  unfolding take_turn grouper
  resolves-Turned p dn w same_name held =
      subst (λ r. Turned w r.1)
        (sym (
          >>=-pure (λ cfg. get_group_members lib cfg s) (λ f. f dn)
            (new_client lib certs factory' p) w))
        (built-Turned p (λ cfg. get_group_members lib cfg s dn) w same_name held
          (λ cfg limited. get_group_members-Spends lib limiter meter metered cfg s dn limited)
          (λ cfg. get_group_members-Keeps lib cfg mgr.limiters apart s dn))

  checks-Turned :
      (p : LdapProvider) (w : W)
      → p.meta.name ≡ name
      → Holds w
      → Turned w (take_turn lib certs rates s finalizers mgr (checks p) w)
  unfolding take_turn pinger
  checks-Turned p w same_name held =
      subst (λ r. Turned w r.1)
        (sym (>>=-pure (ping lib) (λ f. f) (new_client lib certs factory' p) w))
        (built-Turned p (ping lib) w same_name held (ping-Spends lib limiter meter metered)
          (λ cfg. ping-Keeps lib cfg mgr.limiters apart))

  -- While the limiter of a provider's name is held: whatever groups are resolved and health checks made for providers
  -- of the name, in whatever order and with whatever between that makes no connection and does not release the
  -- limiter, as many connections are asked of directories as waits on this one limiter were granted, and no more than
  -- there were turns.
  pub take_turns-Spends :
      (turns : List (Turn W)) (w : W)
      → Holds w
      → Concern lib certs rates s finalizers mgr name meter turns
      → Spends meter (length turns) w (take_turns lib certs rates s finalizers mgr turns w)
  unfolding take_turns Concern take_turn
  take_turns-Spends [] w held h = Spends-none meter 0 w w refl
  take_turns-Spends (resolves p dn ∷ turns) w held h =
      let turned = resolves-Turned p dn w h.0 held in
      Spends-after meter (length turns) w _ _ turned.0 (take_turns-Spends turns _ turned.1 h.1)
  take_turns-Spends (checks p ∷ turns) w held h =
      let turned = checks-Turned p w h.0 held in
      Spends-after meter (length turns) w _ _ turned.0 (take_turns-Spends turns _ turned.1 h.1)
  take_turns-Spends (elsewhere f ∷ turns) w held h =
      let (still, stays) = h.0 w in
      Spends-after meter (length turns) w _ _ (Spends-none meter 1 w _ still)
        (take_turns-Spends turns _ (stays limiter held) h.1)
