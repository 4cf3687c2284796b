-- ===== src/Go/Action/Defs.antt =====
-- The shape of a Go call, and how calls are put together.
use directory_rbac_operator.Base.{String, ◌≡◌, ◌≢◌, refl, ◌⊎◌, inl, inr}
use directory_rbac_operator.Go.Errors.{GoError, foreign, wrap}

-- The pair (value, error) of a Go call, of which callers read one part.
pub data Result (X A : Type 0) : Type 0 where
  ok : A → Result X A
  err : X → Result X A

abbrev pub Action : Type 0 → Type 0 → Type 0 → Type 0
Action W X A = W → Result X A × W

-- A call that cannot fail and returns nothing: a metric, an event.
abbrev pub Effect : Type 0 → Type 0
Effect W = W → W

module _ {W X A : Type 0} where
  unfoldable pub pure : A → Action W X A
  pure a w = (ok a, w)

  unfoldable pub fail : X → Action W X A
  fail e w = (err e, w)

  -- A value computed with the outside world, such as one that reads the clock.
  unfoldable pub reading : (W → A × W) → Action W X A
  reading m w = let (a, w') = m w in (ok a, w')

  -- The result itself, for code that looks at the error.
  unfoldable pub try : Action W X A → Action W X (Result X A)
  try m w = let (r, w') = m w in (ok r, w')

  unfoldable pub of_result : Result X A → Action W X A
  of_result r w = (r, w)

  -- `defer`: the effect happens after the call, however it ends.
  unfoldable pub deferring : Effect W → Action W X A → Action W X A
  deferring f m w = let (r, w') = m w in (r, f w')

unfoldable pub perform : {W X : Type 0} → Effect W → Action W X (Unit {0})
perform f w = (ok tt, f w)

module _ {W X A B : Type 0} where
  unfoldable pub and_then : Result X A → (A → Action W X B) → Action W X B
  and_then (ok a) f = f a
  and_then (err e) f = λ w. (err e, w)

  infixl 5 ◌>>=◌ ◌>>◌
  unfoldable pub ◌>>=◌ : Action W X A → (A → Action W X B) → Action W X B
  unfolding and_then
  m >>= f = λ w. let (r, w') = m w in and_then r f w'

  unfoldable pub ◌>>◌ : Action W X A → Action W X B → Action W X B
  unfolding ◌>>=◌
  m >> k = m >>= λ _. k

unfoldable pub with_error : {X Y A : Type 0} → (X → Y) → Result X A → Result Y A
with_error f (ok a) = ok a
with_error f (err e) = err (f e)

-- Another error in place of the one that a failed call returned.
unfoldable pub map_err : {W X Y A : Type 0} → (X → Y) → Action W X A → Action W Y A
unfolding with_error
map_err f m w = let (r, w') = m w in (with_error f r, w')

-- A call into a library, whose errors are of the library's type.
unfoldable pub call : {W E A : Type 0} → Action W E A → Action W (GoError E) A
unfolding map_err
call = map_err foreign

-- fmt.Errorf("<before>%w<after>", err) around the error of a failed call.
unfoldable pub wrapping :
    {W E A : Type 0} → String → String → Action W (GoError E) A → Action W (GoError E) A
unfolding map_err
wrapping before after = map_err (λ e. wrap before e after)

pub Result-cases :
    {X A : Type 0} (r : Result X A) → ((a : A) × (r ≡ ok a)) ⊎ ((e : X) × (r ≡ err e))
Result-cases (ok a) = inl (a, refl)
Result-cases (err e) = inr (e, refl)

pub with_error-ok :
    {X Y A : Type 0} (f : X → Y) {a : A} (r : Result X A) → with_error f r ≡ ok a → r ≡ ok a
unfolding with_error
with_error-ok f (ok b) h = cc
with_error-ok f (err e) h = cc

pub ok≢err : {X A : Type 0} {a : A} {e : X} → ok a ≢ err e
ok≢err h = cc

pub with_error-err :
    {X Y A : Type 0} (f : X → Y) (r : Result X A) {y : Y}
    → with_error f r ≡ err y
    → (x : X) × (r ≡ err x) × (y ≡ f x)
unfolding with_error
with_error-err f (ok a) h = absurd (ok≢err h)
with_error-err f (err x) h = (x, refl, cc)

pub ok-injective : {X A : Type 0} {a b : A} → ◌≡◌ {A = Result X A} (ok a) (ok b) → a ≡ b
ok-injective h = cc

pub err-injective : {X A : Type 0} {d e : X} → ◌≡◌ {A = Result X A} (err d) (err e) → d ≡ e
err-injective h = cc
