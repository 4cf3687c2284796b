-- ===== src/Go/Action/Keeps.antt =====
-- What a call leaves alone: a view of the world that is the same before and after, however the call
-- ends. The rules follow how calls are put together.
use directory_rbac_operator.Base.{String, ◌≡◌, refl, ◌∙◌}
use directory_rbac_operator.Go.Errors.{GoError}
use directory_rbac_operator.Go.Action.Defs.{
  Result, ok, err, Action, Effect, pure, fail, reading, try, of_result, deferring, perform,
  and_then, ◌>>=◌, ◌>>◌, call, wrapping,
}

pub record Keeps {W V X A : Type 0} (view : W → V) (m : Action W X A) : Type 0 where
  pub keeps : (w : W) → view (m w).1 ≡ view w

module _ {W V : Type 0} (view : W → V) where
  abbrev pub KeepsEffect : Effect W → Type 0
  KeepsEffect f = (w : W) → view (f w) ≡ view w

module _ {W V : Type 0} {view : W → V} where
  pub pure-Keeps : {X A : Type 0} (a : A) → Keeps view (pure {X = X} a)
  unfolding pure
  pure-Keeps a = record { keeps = λ w. refl }

  pub fail-Keeps : {X A : Type 0} (e : X) → Keeps view (fail {A = A} e)
  unfolding fail
  fail-Keeps e = record { keeps = λ w. refl }

  pub of_result-Keeps : {X A : Type 0} (r : Result X A) → Keeps view (of_result r)
  unfolding of_result
  of_result-Keeps r = record { keeps = λ w. refl }

  pub perform-Keeps :
      {X : Type 0} (f : Effect W) → KeepsEffect view f → Keeps view (perform {X = X} f)
  unfolding perform
  perform-Keeps f h = record { keeps = h }

  pub reading-Keeps :
      {X A : Type 0} (m : W → A × W)
      → ((w : W) → view (m w).1 ≡ view w)
      → Keeps view (reading {X = X} m)
  unfolding reading
  reading-Keeps m h = record { keeps = h }

  pub try-Keeps : {X A : Type 0} (m : Action W X A) → Keeps view m → Keeps view (try m)
  unfolding try
  try-Keeps m h = record { keeps = h.keeps }

  pub deferring-Keeps :
      {X A : Type 0} (f : Effect W) (m : Action W X A)
      → KeepsEffect view f
      → Keeps view m
      → Keeps view (deferring f m)
  unfolding deferring
  deferring-Keeps f m hf hm = record { keeps = λ w. hf (m w).1 ∙ hm.keeps w }

  pub and_then-Keeps :
      {X A B : Type 0} (r : Result X A) (f : A → Action W X B)
      → ((a : A) → Keeps view (f a))
      → (w : W) → view (and_then r f w).1 ≡ view w
  unfolding and_then
  and_then-Keeps (ok a) f h w = (h a).keeps w
  and_then-Keeps (err e) f h w = refl

  pub >>=-Keeps :
      {X A B : Type 0} (m : Action W X A) (f : A → Action W X B)
      → Keeps view m
      → ((a : A) → Keeps view (f a))
      → Keeps view (m >>= f)
  unfolding ◌>>=◌
  >>=-Keeps m f hm hf = record { keeps = λ w. and_then-Keeps (m w).0 f hf (m w).1 ∙ hm.keeps w }

  pub >>-Keeps :
      {X A B : Type 0} (m : Action W X A) (k : Action W X B)
      → Keeps view m
      → Keeps view k
      → Keeps view (m >> k)
  unfolding ◌>>◌
  >>-Keeps m k hm hk = >>=-Keeps m (λ _. k) hm (λ _. hk)

  pub call-Keeps : {E A : Type 0} (m : Action W E A) → Keeps view m → Keeps view (call m)
  unfolding call
  call-Keeps m h = record { keeps = h.keeps }

  pub wrapping-Keeps :
      {E A : Type 0} (before after : String) (m : Action W (GoError E) A)
      → Keeps view m
      → Keeps view (wrapping before after m)
  unfolding wrapping
  wrapping-Keeps before after m h = record { keeps = h.keeps }

pub ruleset keeps_rules = (
  pure-Keeps, fail-Keeps, of_result-Keeps, perform-Keeps, reading-Keeps, try-Keeps, deferring-Keeps,
  >>=-Keeps, >>-Keeps, call-Keeps, wrapping-Keeps,
)
