-- ===== src/Go/Sort/Insertion.antt =====
-- An insertion sort, which package sort itself uses on short slices: it meets the contract.
use mathlib.Core.List.{Perm, Pairwise, Mem, not-mem-nil, forall_mem-cons}
use mathlib.Core.List.Perm
use directory_rbac_operator.Base.{
  ◌≡◌, inl, inr, Bool, true, false, List, [], ◌∷◌, arith, if◌then◌else◌, Bool-cases,
}
use directory_rbac_operator.Go.Sort.Contract.{IsStrictWeak, IsSorted, Sorter}

module _ {A : Type 0} (less : A → A → Bool) where
  -- `x` moves past the elements that are less than it.
  insert : A → List A → List A
  insert x [] = x ∷ []
  insert x (y ∷ ys) = if less y x then y ∷ insert x ys else x ∷ y ∷ ys

  unfoldable pub insertion_sort : List A → List A
  unfolding insert
  insertion_sort [] = []
  insertion_sort (x ∷ xs) = insert x (insertion_sort xs)

  insert-perm : (x : A) (l : List A) → Perm (insert x l) (x ∷ l)
  unfolding insert
  insert-perm x [] = Perm.rfl
  insert-perm x (y ∷ ys) = elim (Bool-cases (less y x)) [
    | inl p ↦ rw p (Perm.trans (Perm.cons y (insert-perm x ys)) (Perm.swap x y ys))
    | inr p ↦ rw p Perm.rfl
  ]

  pub insertion_sort-perm : (l : List A) → Perm (insertion_sort l) l
  unfolding insertion_sort
  insertion_sort-perm [] = Perm.rfl
  insertion_sort-perm (x ∷ xs) =
      Perm.trans (insert-perm x (insertion_sort xs)) (Perm.cons x (insertion_sort-perm xs))

  -- No element of the list is less than `x`.
  abbrev pub IsBelow : A → List A → Type 0
  IsBelow x l = (y : A) → Mem y l → less y x ≡ false

  pub IsBelow-cons : {x y : A} {l : List A} → less y x ≡ false → IsBelow x l → IsBelow x (y ∷ l)
  IsBelow-cons p h = (forall_mem-cons (hlevel)).1 (p, h)

  IsBelow-insert : {x y : A} (l : List A) → less x y ≡ false → IsBelow y l → IsBelow y (insert x l)
  IsBelow-insert {x} l p h z m = IsBelow-cons p h z ((Perm.mem_iff (insert-perm x l)).0 m)

module _ {A : Type 0} {less : A → A → Bool} (o : IsStrictWeak less) where
  pub less-asymm : (a b : A) → less a b ≡ true → less b a ≡ false
  less-asymm a b h = ground (arith, o.trans a b a, o.irrefl a)

  pub not_less_trans : (a b c : A) → less b a ≡ false → less c b ≡ false → less c a ≡ false
  not_less_trans a b c h k = ground (arith, o.weak c b a)

  insert-IsSorted : (x : A) (l : List A) → IsSorted less l → IsSorted less (insert less x l)
  unfolding insert
  insert-IsSorted x [] h = Pairwise.cons (λ y m. absurd (not-mem-nil m)) Pairwise.nil
  insert-IsSorted x (y ∷ ys) (Pairwise.cons below rest) = elim (Bool-cases (less y x)) [
    | inl p ↦ rw p (
        Pairwise.cons (IsBelow-insert less ys (less-asymm y x p) below) (insert-IsSorted x ys rest))
    | inr p ↦ rw p (
        Pairwise.cons (IsBelow-cons less p (λ z m. not_less_trans x y z p (below z m)))
          (Pairwise.cons below rest))
  ]

  pub insertion_sort-IsSorted : (l : List A) → IsSorted less (insertion_sort less l)
  unfolding insertion_sort
  insertion_sort-IsSorted [] = Pairwise.nil
  insertion_sort-IsSorted (x ∷ xs) = insert-IsSorted x _ (insertion_sort-IsSorted xs)

abbrev pub insertion : {A : Type 0} → Sorter A
insertion = record {
  sort = insertion_sort;
  sort-perm = insertion_sort-perm;
  sort-IsSorted = λ less l o. insertion_sort-IsSorted o l;
}
