-- ===== src/Go/Action/Adds.antt =====
-- By how much a call raises a count at most, however it ends.
use directory_rbac_operator.Base.{ℕ, String, ◌≡◌, refl, ◌+◌, ◌≤◌, arith}
use directory_rbac_operator.Go.Errors.{GoError}
use directory_rbac_operator.Go.Action.Defs.{
  Result, ok, err, Action, Effect, deferring, and_then, ◌>>=◌, wrapping, map_err,
}
use directory_rbac_operator.Go.Action.Keeps.{Keeps, KeepsEffect}

pub record Adds {W X A : Type 0} (count : W → ℕ) (most : ℕ) (m : Action W X A) : Type 0 where
  pub bounded : (w : W) → count (m w).1 ≤ most + count w

module _ {W : Type 0} {count : W → ℕ} where
  pub Keeps-Adds : {X A : Type 0} (n : ℕ) (m : Action W X A) → Keeps count m → Adds count n m
  Keeps-Adds n m h = record { bounded = λ w. omega (arith, h.keeps w) }

  and_then-Adds :
      {X A B : Type 0} (n : ℕ) (r : Result X A) (f : A → Action W X B) (w : W)
      → ((a : A) → r ≡ ok a → Adds count n (f a))
      → count (and_then r f w).1 ≤ n + count w
  unfolding and_then
  and_then-Adds n (ok a) f w h = (h a refl).bounded w
  and_then-Adds n (err e) f w h = omega arith

  -- The bound of the second call may use what the first one gave.
  pub >>=-Adds :
      {X A B : Type 0} (n k most : ℕ) (m : Action W X A) (f : A → Action W X B)
      → n + k ≤ most
      → Adds count n m
      → ((w : W) (a : A) → (m w).0 ≡ ok a → Adds count k (f a))
      → Adds count most (m >>= f)
  unfolding ◌>>=◌
  >>=-Adds n k most m f within hm hf = record {
    bounded = λ w. omega (arith, within, hm.bounded w, and_then-Adds k (m w).0 f (m w).1 (hf w));
  }

  pub wrapping-Adds :
      {E A : Type 0} (before after : String) (n : ℕ) (m : Action W (GoError E) A)
      → Adds count n m
      → Adds count n (wrapping before after m)
  unfolding wrapping map_err
  wrapping-Adds before after n m h = record { bounded = h.bounded }

  pub deferring-Adds :
      {X A : Type 0} (f : Effect W) (n : ℕ) (m : Action W X A)
      → KeepsEffect count f
      → Adds count n m
      → Adds count n (deferring f m)
  unfolding deferring
  deferring-Adds f n m hf hm = record { bounded = λ w. omega (arith, hm.bounded w, hf (m w).1) }

  pub Adds-weaker :
      {X A : Type 0} (n k : ℕ) (m : Action W X A) → n ≤ k → Adds count n m → Adds count k m
  Adds-weaker n k m h adds = record { bounded = λ w. omega (arith, h, adds.bounded w) }
