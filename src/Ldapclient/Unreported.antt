-- ===== src/Ldapclient/Unreported.antt =====
-- internal/ldapclient/client.go: calls that fail with other errors than ErrGroupNotFound.
use directory_rbac_operator.Base.{String, ◌≡◌, refl, ◌∙◌, Bool, false}
use directory_rbac_operator.Go.Errors.{GoError, wrap, foreign, is_group_not_found}
use directory_rbac_operator.Go.Action.{
  Result, ok, err, Action, Effect, pure, fail, reading, try, perform, and_then, ◌>>=◌, ◌>>◌,
  with_error, map_err, call, wrapping,
}

-- The result is the error that errors.Is finds ErrGroupNotFound in.
unfoldable pub reports_absence : {E A : Type 0} → Result (GoError E) A → Bool
reports_absence (ok a) = false
reports_absence (err e) = is_group_not_found e

-- A call that never reports a group as absent.
pub record Unreported {W E A : Type 0} (m : Action W (GoError E) A) : Type 0 where
  pub unreported : (w : W) → reports_absence (m w).0 ≡ false

wrapped-unreported :
    {E A : Type 0} (before after : String) (r : Result (GoError E) A)
    → reports_absence (with_error (λ e. wrap before e after) r) ≡ reports_absence r
unfolding with_error reports_absence is_group_not_found
wrapped-unreported before after (ok a) = refl
wrapped-unreported before after (err e) = refl

pub foreign-unreported :
    {E A : Type 0} (r : Result E A) → reports_absence (with_error foreign r) ≡ false
unfolding with_error reports_absence is_group_not_found
foreign-unreported (ok a) = refl
foreign-unreported (err e) = refl

module _ {W E : Type 0} where
  pub wrapping-Unreported :
      {A : Type 0} (before after : String) (m : Action W (GoError E) A)
      → Unreported m
      → Unreported (wrapping before after m)
  unfolding wrapping map_err
  wrapping-Unreported before after m h = record {
    unreported = λ w. wrapped-unreported before after (m w).0 ∙ h.unreported w;
  }

  pub call-Unreported : {A : Type 0} (m : Action W E A) → Unreported (call m)
  unfolding call map_err
  call-Unreported m = record { unreported = λ w. foreign-unreported (m w).0 }

  and_then-Unreported :
      {A B : Type 0} (r : Result (GoError E) A) (f : A → Action W (GoError E) B) (w : W)
      → reports_absence r ≡ false
      → ((a : A) → Unreported (f a))
      → reports_absence (and_then r f w).0 ≡ false
  unfolding and_then reports_absence
  and_then-Unreported (ok a) f w h k = (k a).unreported w
  and_then-Unreported (err e) f w h k = h

  pub >>=-Unreported :
      {A B : Type 0} (m : Action W (GoError E) A) (f : A → Action W (GoError E) B)
      → Unreported m
      → ((a : A) → Unreported (f a))
      → Unreported (m >>= f)
  unfolding ◌>>=◌
  >>=-Unreported m f h k = record {
    unreported = λ w. and_then-Unreported (m w).0 f (m w).1 (h.unreported w) k;
  }

  pub >>-Unreported :
      {A B : Type 0} (m : Action W (GoError E) A) (k : Action W (GoError E) B)
      → Unreported m
      → Unreported k
      → Unreported (m >> k)
  unfolding ◌>>◌
  >>-Unreported m k hm hk = >>=-Unreported m _ hm (λ _. hk)

  -- What looks at the result of a library call.
  pub try-call-Unreported :
      {A B : Type 0} (m : Action W E A) (f : Result (GoError E) A → Action W (GoError E) B)
      → ((r : Result (GoError E) A) → reports_absence r ≡ false → Unreported (f r))
      → Unreported (try (call m) >>= f)
  unfolding ◌>>=◌ try
  try-call-Unreported m f h = record {
    unreported = λ w. (h (call m w).0 ((call-Unreported m).unreported w)).unreported (call m w).1;
  }

  pub pure-Unreported : {A : Type 0} (a : A) → Unreported (pure {W = W} {X = GoError E} a)
  unfolding pure reports_absence
  pure-Unreported a = record { unreported = λ w. refl }

  pub fail-Unreported :
      {A : Type 0} (e : GoError E)
      → is_group_not_found e ≡ false
      → Unreported (fail {W = W} {A = A} e)
  unfolding fail reports_absence
  fail-Unreported e h = record { unreported = λ w. h }

  pub perform-Unreported : (f : Effect W) → Unreported (perform {X = GoError E} f)
  unfolding perform reports_absence
  perform-Unreported f = record { unreported = λ w. refl }

  pub reading-Unreported : {A : Type 0} (m : W → A × W) → Unreported (reading {X = GoError E} m)
  unfolding reading reports_absence
  reading-Unreported m = record { unreported = λ w. refl }
