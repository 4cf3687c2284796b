-- ===== src/Base/Text.antt =====
-- Go's `<` on strings: bytes in lexical order, which on UTF-8 is the order of the code points.
use Prim.Native.Nat.{Ordering}
use Prim.Native.String.compare
use Prim.Native.String.{String, compare}
use mathlib.Core.Path.{◌≡◌, refl}
use mathlib.Core.Logic.{◌⊎◌, inl, inr}
use mathlib.Core.Bool.{Bool, true, false}
use native.Mathlib.Omega.{arith}
use mathlib.Core.HLevel.{hedberg}
use text.Mathlib.Text.{is_lt, ◌==◌}
use text.Mathlib.TextEquality.{codes_equal, eq_iff}
use text.Mathlib.TextPositions.{compare_refl}
use directory_rbac_operator.Base.Tests.{Bool-cases}

abbrev pub str_lt : String → String → Bool
str_lt s t = is_lt (compare s t)

pub compare_trans :
    (s t u : String)
    → compare s t ≡ Ordering.lt
    → compare t u ≡ Ordering.lt
    → compare s u ≡ Ordering.lt
compare_trans s String.[] String.[] h k = ground (arith, compare_refl String.[])
compare_trans String.[] t (String.◌∷◌ e u) h k = compare.nil-cons e u
compare_trans String.[] (String.◌∷◌ d t) String.[] h k = ground (arith, compare.cons-nil d t)
compare_trans (String.◌∷◌ c s) (String.◌∷◌ d t) String.[] h k = ground (arith, compare.cons-nil d t)
compare_trans (String.◌∷◌ c s) String.[] (String.◌∷◌ e u) h k = ground (arith, compare.cons-nil c s)
compare_trans (String.◌∷◌ c s) (String.◌∷◌ d t) (String.◌∷◌ e u) h k = ground (
  arith,
  compare.cons-cons c d s t,
  compare.cons-cons d e t u,
  compare.cons-cons c e s u,
  compare_trans s t u,
)

-- Two texts are equal, or one is below the other.
pub compare_total :
    (s t : String) → (compare s t ≡ Ordering.lt) ⊎ (s ≡ t) ⊎ (compare t s ≡ Ordering.lt)
compare_total String.[] String.[] = inr (inl refl)
compare_total String.[] (String.◌∷◌ d t) = inl (compare.nil-cons d t)
compare_total (String.◌∷◌ c s) String.[] = inr (inr (compare.nil-cons c s))
compare_total (String.◌∷◌ c s) (String.◌∷◌ d t) = ground (
  arith,
  compare.cons-cons c d s t,
  compare.cons-cons d c t s,
  compare_total s t,
  codes_equal c d,
)

pub str_lt_trans : (s t u : String) → str_lt s t ≡ true → str_lt t u ≡ true → str_lt s u ≡ true
str_lt_trans s t u h k = ground (arith, compare_trans s t u)

pub str_lt_irrefl : (s : String) → str_lt s s ≡ false
str_lt_irrefl s = ground (arith, compare_refl s)

pub str_lt_asymm : (s t : String) → str_lt s t ≡ true → str_lt t s ≡ false
str_lt_asymm s t h = ground (arith, str_lt_trans s t s, str_lt_irrefl s)

pub str_lt_total : (s t : String) → str_lt s t ≡ false → str_lt t s ≡ false → s ≡ t
str_lt_total s t h k = ground (arith, compare_total s t)

pub String-discrete : Discrete String
String-discrete s t = elim (Bool-cases (s == t)) [
  | inl p ↦ yes ((eq_iff s t).0 p)
  | inr p ↦ no (λ e. ground (arith, eq_iff s t))
]

pub String-set : IsSet String
String-set = hedberg String-discrete

pub str_lt_weak : (s t u : String) → str_lt s u ≡ true → (str_lt s t ≡ true) ⊎ (str_lt t u ≡ true)
str_lt_weak s t u h = ground (
  arith,
  compare_total s t,
  compare_total t u,
  compare_trans u t s,
  str_lt_asymm s u,
  str_lt_irrefl s,
)
