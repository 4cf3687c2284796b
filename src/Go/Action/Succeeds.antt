-- ===== src/Go/Action/Succeeds.antt =====
-- Calls that succeed in every world of a kind, and lead to a world of the kind. The rules follow how calls are put
-- together.
use directory_rbac_operator.Base.{◌≡◌, refl, sym, subst}
use directory_rbac_operator.Go.Action.Defs.{
  Result, ok, Action, Effect, pure, reading, perform, ◌>>=◌, ◌>>◌, call, map_err, with_error,
}
use directory_rbac_operator.Go.Action.Bind.{>>=-continues}

-- A run that succeeded in a world of the kind.
pub record Success {W X A : Type 0} (up : W → Type 0) (m : Result X A × W) : Type 0 where
  pub value : A
  pub is_ok : m.0 ≡ ok value
  pub stays_up : up m.1

abbrev pub Succeeds : {W X A : Type 0} → (W → Type 0) → Action W X A → Type 0
Succeeds {W} up m = (w : W) → up w → Success up (m w)

abbrev pub Preserves : {W : Type 0} → (W → Type 0) → Effect W → Type 0
Preserves {W} up f = (w : W) → up w → up (f w)

module _ {W : Type 0} {up : W → Type 0} where
  pub pure-Succeeds : {X A : Type 0} (a : A) → Succeeds up (pure {X = X} a)
  unfolding pure
  pure-Succeeds a w h = record { value = a; is_ok = refl; stays_up = h }

  pub perform-Succeeds :
      {X : Type 0} (f : Effect W) → Preserves up f → Succeeds up (perform {X = X} f)
  unfolding perform
  perform-Succeeds f keep w h = record { value = tt; is_ok = refl; stays_up = keep w h }

  pub reading-Succeeds :
      {X A : Type 0} (m : W → A × W)
      → ((w : W) → up w → up (m w).1)
      → Succeeds up (reading {X = X} m)
  unfolding reading
  reading-Succeeds m keep w h = record { value = (m w).0; is_ok = refl; stays_up = keep w h }

  pub call-Success :
      {E A : Type 0} (m : Action W E A) (w : W) → Success up (m w) → Success up (call m w)
  unfolding call map_err with_error
  call-Success m w s = record { value = s.value; is_ok = rw s.is_ok refl; stays_up = s.stays_up }

  pub >>=-Success :
      {X A B : Type 0} (m : Action W X A) (f : A → Action W X B) (w : W)
      → Success up (m w)
      → ((a : A) → (m w).0 ≡ ok a → Success up (f a (m w).1))
      → Success up ((m >>= f) w)
  >>=-Success m f w s next =
      subst (Success up) (sym (>>=-continues m f w s.value s.is_ok)) (next s.value s.is_ok)

  pub >>=-Succeeds :
      {X A B : Type 0} (m : Action W X A) (f : A → Action W X B)
      → Succeeds up m
      → ((a : A) → Succeeds up (f a))
      → Succeeds up (m >>= f)
  >>=-Succeeds m f hm hf w h =
      let s = hm w h in >>=-Success m f w s (λ a q. hf a (m w).1 s.stays_up)

  pub >>-Succeeds :
      {X A B : Type 0} (m : Action W X A) (k : Action W X B)
      → Succeeds up m
      → Succeeds up k
      → Succeeds up (m >> k)
  unfolding ◌>>◌
  >>-Succeeds m k hm hk = >>=-Succeeds m (λ _. k) hm (λ _. hk)

  pub >>-Success :
      {X A B : Type 0} (m : Action W X A) (k : Action W X B) (w : W)
      → Success up (m w)
      → Success up (k (m w).1)
      → Success up ((m >> k) w)
  unfolding ◌>>◌
  >>-Success m k w s next = >>=-Success m (λ _. k) w s (λ _ _. next)
