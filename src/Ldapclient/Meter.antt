-- ===== src/Ldapclient/Meter.antt =====
-- What a limiter counts: connections that were asked of directories, and waits that were granted.
use directory_rbac_operator.Base.{ℕ, suc, ◌≡◌, refl, ap, ◌∙◌, ◌+◌, ◌≤◌, arith}
use directory_rbac_operator.Go.Action.{Result, ok, err}

-- The connections that were asked of directories, and the waits on a limiter that were granted.
pub record Meter : Type 0 where
  pub dials : ℕ
  pub grants : ℕ

abbrev pub one_dial : Meter → Meter
one_dial m = record m { dials = suc m.dials }

-- A wait counts when it is granted.
unfoldable pub one_wait : {X : Type 0} → Result X (Unit {0}) → Meter → Meter
one_wait (ok _) m = record m { grants = suc m.grants }
one_wait (err e) m = m

-- As many waits and as many connections.
abbrev pub spend : ℕ → Meter → Meter
spend n m = record { dials = n + m.dials; grants = n + m.grants }

-- Up to a bound, what was done took as many connections as waits.
pub record Spends {W : Type 0} (meter : W → Meter) (most : ℕ) (w w' : W) : Type 0 where
  pub connections : ℕ
  pub bounded : connections ≤ most
  pub counted : meter w' ≡ spend connections (meter w)

pub spend-zero : (m : Meter) → m ≡ spend 0 m
spend-zero m =
    let dials : 0 + m.dials ≡ m.dials = omega arith in
    let grants : 0 + m.grants ≡ m.grants = omega arith in rw (dials, grants) refl

pub spend-one : (m : Meter) → one_dial (record m { grants = suc m.grants }) ≡ spend 1 m
spend-one m =
    let dials : 1 + m.dials ≡ suc m.dials = omega arith in
    let grants : 1 + m.grants ≡ suc m.grants = omega arith in rw (dials, grants) refl

spend-spend : (n k : ℕ) (m : Meter) → spend k (spend n m) ≡ spend (k + n) m
spend-spend n k m =
    let dials : k + (n + m.dials) ≡ k + n + m.dials = omega arith in
    let grants : k + (n + m.grants) ≡ k + n + m.grants = omega arith in rw (dials, grants) refl

module _ {W : Type 0} (meter : W → Meter) where
  pub Spends-kept :
      (w w' w'' : W) → Spends meter 1 w w' → meter w'' ≡ meter w' → Spends meter 1 w w''
  Spends-kept w w' w'' spent h = record {
    connections = spent.connections;
    bounded = spent.bounded;
    counted = h ∙ spent.counted;
  }

  pub Spends-after :
      (n : ℕ) (w w' w'' : W)
      → Spends meter 1 w w'
      → Spends meter n w' w''
      → Spends meter (suc n) w w''
  Spends-after n w w' w'' first second = record {
    connections = second.connections + first.connections;
    bounded = omega (arith, first.bounded, second.bounded);
    counted =
        second.counted
        ∙ ap (spend second.connections) first.counted
        ∙ spend-spend first.connections second.connections (meter w);
  }

  pub Spends-none : (n : ℕ) (w w' : W) → meter w' ≡ meter w → Spends meter n w w'
  Spends-none n w w' h = record {
    connections = 0;
    bounded = omega arith;
    counted = h ∙ spend-zero (meter w);
  }

  pub Spends-before :
      (n : ℕ) (w w' w'' : W) → meter w' ≡ meter w → Spends meter n w' w'' → Spends meter n w w''
  Spends-before n w w' w'' h spent = record {
    connections = spent.connections;
    bounded = spent.bounded;
    counted = spent.counted ∙ ap (spend spent.connections) h;
  }
