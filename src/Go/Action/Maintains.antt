-- ===== src/Go/Action/Maintains.antt =====
-- A property of the world that a call which starts with it also ends with, whether it succeeds or not.
use directory_rbac_operator.Base.{String}
use directory_rbac_operator.Go.Errors.{GoError}
use directory_rbac_operator.Go.Action.Defs.{
  Result, ok, err, Action, pure, reading, and_then, ◌>>=◌, wrapping, map_err,
}

pub record Maintains {W X A : Type 0} (holds : W → Type 0) (m : Action W X A) : Type 0 where
  pub maintained : (w : W) → holds w → holds (m w).1

module _ {W : Type 0} {holds : W → Type 0} where
  pub pure-Maintains : {X A : Type 0} (a : A) → Maintains holds (pure {X = X} a)
  unfolding pure
  pure-Maintains a = record { maintained = λ w h. h }

  pub reading-Maintains :
      {X A : Type 0} (m : W → A × W)
      → ((w : W) → holds w → holds (m w).1)
      → Maintains holds (reading {X = X} m)
  unfolding reading
  reading-Maintains m h = record { maintained = h }

  pub wrapping-Maintains :
      {E A : Type 0} (before after : String) (m : Action W (GoError E) A)
      → Maintains holds m
      → Maintains holds (wrapping before after m)
  unfolding wrapping map_err
  wrapping-Maintains before after m h = record { maintained = h.maintained }

  pub and_then-Maintains :
      {X A B : Type 0} (r : Result X A) (f : A → Action W X B) (w : W)
      → ((a : A) → Maintains holds (f a))
      → holds w
      → holds (and_then r f w).1
  unfolding and_then
  and_then-Maintains (ok a) f w rest h = (rest a).maintained w h
  and_then-Maintains (err e) f w rest h = h

  pub >>=-Maintains :
      {X A B : Type 0} (m : Action W X A) (f : A → Action W X B)
      → Maintains holds m
      → ((a : A) → Maintains holds (f a))
      → Maintains holds (m >>= f)
  unfolding ◌>>=◌
  >>=-Maintains m f first rest = record {
    maintained = λ w h. and_then-Maintains _ f _ rest (first.maintained w h);
  }
