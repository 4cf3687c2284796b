-- ===== src/Go/Action/Bind.antt =====
-- How a call that is put together ends, from how its parts end.
use directory_rbac_operator.Base.{String, ◌≡◌, refl, sym, ◌∙◌, inl, inr}
use directory_rbac_operator.Go.Errors.{GoError}
use directory_rbac_operator.Go.Action.Defs.{
  Result, ok, err, ok≢err, Result-cases, Action, pure, fail, try, ◌>>=◌, ◌>>◌, and_then, wrapping,
  map_err, with_error,
}

module _ {W X A B : Type 0} where
  -- What a call that succeeded went through.
  pub record Passed (m : Action W X A) (f : A → Action W X B) (w : W) : Type 0 where
    pub value : A
    pub passed : (m w).0 ≡ ok value
    pub goes_on : (m >>= f) w ≡ f value (m w).1

  and_then-eq :
      {r : Result X A} {a : A} (f : A → Action W X B) (w : W) → r ≡ ok a → and_then r f w ≡ f a w
  unfolding and_then
  and_then-eq f w q = rw q

  pub >>=-eq_ok :
      (m : Action W X A) (f : A → Action W X B) (w : W) (b : B)
      → ((m >>= f) w).0 ≡ ok b
      → Passed m f w
  unfolding ◌>>=◌
  >>=-eq_ok m f w b h = elim (Result-cases (m w).0) [
    | inl (a, q) ↦ record { value = a; passed = q; goes_on = and_then-eq f (m w).1 q }
    | inr (e, q) ↦ absurd (ok≢err {a = b} {e = e} (sym h ∙ rw q))
  ]

  pub >>-eq_ok :
      (m : Action W X A) (k : Action W X B) (w : W) (b : B)
      → ((m >> k) w).0 ≡ ok b
      → Passed m (λ _. k) w
  unfolding ◌>>◌
  >>-eq_ok m k w b h = >>=-eq_ok m (λ _. k) w b h

  pub try_then :
      (m : Action W X A) (f : Result X A → Action W X B) (w : W)
      → (try m >>= f) w ≡ f (m w).0 (m w).1
  unfolding ◌>>=◌ try
  try_then m f w = refl

  pub >>=-continues :
      (m : Action W X A) (f : A → Action W X B) (w : W) (a : A)
      → (m w).0 ≡ ok a
      → (m >>= f) w ≡ f a (m w).1
  unfolding ◌>>=◌
  >>=-continues m f w a q = and_then-eq f (m w).1 q

-- A failure at the end fails the whole, with whichever error came first.
and_then-fails :
    {W X A B : Type 0} (r : Result X A) (cause : X) (w : W)
    → (e : X) × ((and_then r (λ _. fail {A = B} cause) w).0 ≡ err e)
unfolding and_then fail
and_then-fails (ok a) cause w = (cause, refl)
and_then-fails (err e) cause w = (e, refl)

pub >>-fails :
    {W X A B : Type 0} (m : Action W X A) (cause : X) (w : W)
    → (e : X) × (((m >> fail {A = B} cause) w).0 ≡ err e)
unfolding ◌>>◌ ◌>>=◌
>>-fails m cause w = and_then-fails (m w).0 cause (m w).1

-- What is made of a value, then used.
module _ {W X A B D : Type 0} (g : A → B) (k : B → Action W X D) where
  and_then-pure :
      (r : Result X A) (w : W)
      → and_then (and_then r (λ a. pure (g a)) w).0 k (and_then r (λ a. pure (g a)) w).1
        ≡ and_then r (λ a. k (g a)) w
  unfolding and_then pure
  and_then-pure (ok a) w = refl
  and_then-pure (err e) w = refl

  pub >>=-pure :
      (m : Action W X A) (w : W) → (m >>= (λ a. pure (g a)) >>= k) w ≡ (m >>= (λ a. k (g a))) w
  unfolding ◌>>=◌
  >>=-pure m w = and_then-pure (m w).0 (m w).1

pub wrapping-continues :
    {W E A : Type 0} (before after : String) (m : Action W (GoError E) A) (w : W) (a : A)
    → (m w).0 ≡ ok a
    → (wrapping before after m w).0 ≡ ok a
unfolding wrapping map_err with_error
wrapping-continues before after m w a q = rw q refl
