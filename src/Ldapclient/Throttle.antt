-- ===== src/Ldapclient/Throttle.antt =====
-- internal/ldapclient/client.go: what the limiter of a client counts of its connections.
use directory_rbac_operator.Base.{String, ◌≡◌, refl, sym, ap, subst, ◌∙◌, Option, some, arith}
use directory_rbac_operator.Go.Errors.{GoError}
use directory_rbac_operator.Go.Action.{
  Result, ok, err, Action, pure, perform, and_then, ◌>>=◌, ◌>>◌, call, wrapping, map_err,
  with_error,
}
use directory_rbac_operator.Go.Action.Keeps.{
  Keeps, KeepsEffect, keeps_rules, and_then-Keeps, deferring-Keeps,
}
use directory_rbac_operator.Go.Sort.{Sorter}
use directory_rbac_operator.Ldapclient.Library.{Library, Config}
use directory_rbac_operator.Ldapclient.Frame.{
  QueriesKeep, apply_deadline-keeps, members_on-Keeps, secure-Keeps, on_bind-Keeps,
}
use directory_rbac_operator.Ldapclient.Meter.{
  Meter, one_dial, one_wait, Spends, spend-zero, spend-one, Spends-kept,
}
use directory_rbac_operator.Ldapclient.Client.{
  wait_turn, dial, log_in, connect_and_bind, ping, get_group_members,
}

-- What the library's calls add to the meter of a limiter.
pub record Metered {W E C T L N : Type 0} (lib : Library W E C T L N) (limiter : L)
    (meter : W → Meter) : Type 0 where
  pub dial_url-counts :
      (url : String) (t : Option T) (w : W) → meter (lib.dial_url url t w).1 ≡ one_dial (meter w)
  pub wait-counts :
      (w : W) → meter (lib.wait limiter w).1 ≡ one_wait (lib.wait limiter w).0 (meter w)
  pub start_tls-Keeps : (c : C) (t : T) → Keeps meter (lib.start_tls c t)
  pub bind-Keeps : (c : C) (dn password : String) → Keeps meter (lib.bind c dn password)
  pub close-keeps : (c : C) → KeepsEffect meter (lib.close c)
  pub queries : QueriesKeep lib meter

module _ {W E C T L N : Type 0} (lib : Library W E C T L N) (limiter : L) (meter : W → Meter)
    (metered : Metered lib limiter meter) where
  open metered use {dial_url-counts, wait-counts, start_tls-Keeps, bind-Keeps, close-keeps, queries}
  open queries use {time_left-keeps}

  module _ (cfg : Config T L) where
    -- What follows the dial, up to the bound connection.
    bound-Keeps : (c : C) → Keeps meter (log_in lib cfg c)
    unfolding log_in
    bound-Keeps c =
        let deadline-keeps = apply_deadline-keeps lib cfg meter queries.set_timeout-keeps in
        let answer-Keeps = on_bind-Keeps lib cfg meter close-keeps in
        search (keeps_rules, time_left-keeps, deadline-keeps, bind-Keeps, answer-Keeps) depth 9

    dial-counts : (w : W) → meter (dial lib cfg w).1 ≡ one_dial (meter w)
    unfolding dial ◌>>=◌ call map_err
    dial-counts w =
        and_then-Keeps _ _ (λ c. secure-Keeps lib cfg meter close-keeps start_tls-Keeps c _) _
        ∙ dial_url-counts _ _ w

    connect-counts :
        (w : W)
        → meter ((wrapping "ldapclient: dial: " "" (dial lib cfg) >>= log_in lib cfg) w).1
          ≡ one_dial (meter w)
    unfolding ◌>>=◌ wrapping map_err
    connect-counts w = and_then-Keeps _ _ bound-Keeps _ ∙ dial-counts w

    one_wait-with_error :
        {X Y : Type 0} (f : X → Y) (r : Result X (Unit {0})) (m : Meter)
        → one_wait r m ≡ one_wait (with_error f r) m
    unfolding one_wait with_error
    one_wait-with_error f (ok _) m = refl
    one_wait-with_error f (err e) m = refl

    waits :
        (w : W)
        → meter (wait_turn lib cfg (some limiter) w).1
          ≡ one_wait (wait_turn lib cfg (some limiter) w).0 (meter w)
    unfolding wait_turn wrapping map_err call
    waits w = wait-counts w ∙ one_wait-with_error _ _ _ ∙ one_wait-with_error _ _ _

    -- What goes on after a wait, if it was granted.
    after_wait-Spends :
        {A : Type 0} (r : Result (GoError E) (Unit {0})) (k : Action W (GoError E) A) (w w' : W)
        → meter w' ≡ one_wait r (meter w)
        → ((v : W) → meter (k v).1 ≡ one_dial (meter v))
        → Spends meter 1 w (and_then r (λ _. k) w').1
    unfolding and_then one_wait
    after_wait-Spends (ok _) k w w' h counts = record {
      connections = 1;
      bounded = omega arith;
      counted = counts w' ∙ ap one_dial h ∙ spend-one (meter w);
    }
    after_wait-Spends (err e) k w w' h counts = record {
      connections = 0;
      bounded = omega arith;
      counted = h ∙ spend-zero (meter w);
    }

    connect_and_bind-Spends :
        cfg.limiter ≡ some limiter → (w : W) → Spends meter 1 w (connect_and_bind lib cfg w).1
    unfolding connect_and_bind ◌>>◌ ◌>>=◌
    connect_and_bind-Spends limited w =
        after_wait-Spends _ _ w _
          (subst
            (λ o. meter (wait_turn lib cfg o w).1 ≡ one_wait (wait_turn lib cfg o w).0 (meter w))
            (sym limited) (waits w))
          connect-counts

    pub get_group_members-Spends :
        (s : Sorter String) (dn : String)
        → cfg.limiter ≡ some limiter
        → (w : W) → Spends meter 1 w (get_group_members lib cfg s dn w).1
    unfolding get_group_members ◌>>=◌
    get_group_members-Spends s dn limited w =
        Spends-kept meter _ _ _ (connect_and_bind-Spends limited w) (
          and_then-Keeps _ _
            (λ c.
              deferring-Keeps _ _ (close-keeps c) (members_on-Keeps lib cfg meter queries s c dn))
            _)

    release-Keeps : (c : C) → Keeps meter (perform (lib.close c) >> pure {X = GoError E} tt)
    release-Keeps c = search (keeps_rules, close-keeps) depth 9

    pub ping-Spends : cfg.limiter ≡ some limiter → (w : W) → Spends meter 1 w (ping lib cfg w).1
    unfolding ping ◌>>=◌
    ping-Spends limited w =
        Spends-kept meter _ _ _ (connect_and_bind-Spends limited w)
          (and_then-Keeps _ _ release-Keeps _)
