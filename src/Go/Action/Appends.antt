-- ===== src/Go/Action/Appends.antt =====
-- What a call that succeeds adds to a log, a view of the world. Of a call that fails nothing is said.
use mathlib.Core.List.{append_assoc, append-nil}
use directory_rbac_operator.Base.{◌≡◌, sym, ap, ◌∙◌, List, [], ◌++◌}
use directory_rbac_operator.Go.Action.Defs.{
  ok, Action, Effect, pure, perform, ◌>>◌, call, with_error-ok,
}
use directory_rbac_operator.Go.Action.Bind.{>>-eq_ok}
use directory_rbac_operator.Go.Action.Keeps.{KeepsEffect}

pub record Appends {W I X A : Type 0} (log : W → List I) (items : List I) (m : Action W X A)
    : Type 0 where
  pub appended : (w : W) (a : A) → (m w).0 ≡ ok a → log (m w).1 ≡ log w ++ items

module _ {W I : Type 0} {log : W → List I} where
  pub pure-Appends : {X A : Type 0} (a : A) → Appends log [] (pure {X = X} a)
  unfolding pure
  pure-Appends a = record { appended = λ w b h. sym (append-nil (log w)) }

  pub perform-Appends :
      {X : Type 0} (f : Effect W) → KeepsEffect log f → Appends log [] (perform {X = X} f)
  unfolding perform
  perform-Appends f h = record { appended = λ w b q. h w ∙ sym (append-nil (log w)) }

  pub call-Appends :
      {E A : Type 0} (items : List I) (m : Action W E A)
      → Appends log items m
      → Appends log items (call m)
  unfolding call
  call-Appends items m h = record { appended = λ w a q. h.appended w a (with_error-ok _ (m w).0 q) }

  pub >>-Appends :
      {X A B : Type 0} (items later : List I) (m : Action W X A) (k : Action W X B)
      → Appends log items m
      → Appends log later k
      → Appends log (items ++ later) (m >> k)
  unfolding ◌>>◌
  >>-Appends items later m k hm hk = record {
    appended = λ w b q.
        let p = >>-eq_ok m k w b q in
        ap (λ r. log r.1) p.goes_on
        ∙ hk.appended (m w).1 b (sym (ap (λ r. r.0) p.goes_on) ∙ q)
        ∙ ap (λ l. l ++ later) (hm.appended w p.value p.passed)
        ∙ append_assoc (log w) items later;
  }
