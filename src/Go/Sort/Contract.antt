-- ===== src/Go/Sort/Contract.antt =====
-- What sort.Slice and sort.Strings promise. The algorithm is not stable and is not fixed, so the
-- code that sorts is modelled over every sort that keeps this promise.
use directory_rbac_operator.Base.{
  ◌≡◌, ◌⊎◌, Bool, true, false, List, str_lt, str_lt_irrefl, str_lt_trans, str_lt_weak,
}
use mathlib.Core.List.{Perm, Pairwise}

-- The ordering that a `less` function must describe: a strict weak order.
pub record IsStrictWeak {A : Type 0} (less : A → A → Bool) : Type 0 where
  pub irrefl : (a : A) → less a a ≡ false
  pub trans : (a b c : A) → less a b ≡ true → less b c ≡ true → less a c ≡ true
  pub weak : (a b c : A) → less a c ≡ true → (less a b ≡ true) ⊎ (less b c ≡ true)

-- No element stands behind one that it is less than.
abbrev pub IsSorted : {A : Type 0} → (A → A → Bool) → List A → Type 0
IsSorted less = Pairwise (λ a b. less b a ≡ false)

pub record Sorter (A : Type 0) : Type 0 where
  pub sort : (A → A → Bool) → List A → List A
  -- the documented behaviour of package sort
  pub sort-perm : (less : A → A → Bool) (l : List A) → Perm (sort less l) l
  pub sort-IsSorted :
      (less : A → A → Bool) (l : List A) → IsStrictWeak less → IsSorted less (sort less l)

-- `<` on strings, which sort.Strings sorts by.
pub str_lt-IsStrictWeak : IsStrictWeak str_lt
str_lt-IsStrictWeak = record { irrefl = str_lt_irrefl; trans = str_lt_trans; weak = str_lt_weak }
