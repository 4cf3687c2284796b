-- ===== src/Go/Sort/Unique.antt =====
-- Two sorted lists of the same elements are equal, where elements that `less` does not tell apart are.
use mathlib.Core.Path.{ap₂}
use mathlib.Core.List.{Perm, Pairwise, Mem, mem-cons_self, mem-cons_of_mem}
use mathlib.Core.List.Perm
use mathlib.Core.List.Pairwise
use directory_rbac_operator.Base.{◌≡◌, Bool, false, List, [], ◌∷◌}
use directory_rbac_operator.Go.Sort.Contract.{IsStrictWeak, IsSorted}
use directory_rbac_operator.Go.Sort.Insertion.{IsBelow-cons}

-- On the elements of the list, `less` orders any two that differ.
abbrev pub Separates : {A : Type 0} → (A → A → Bool) → List A → Type 0
Separates {A} less l = (x y : A) → Mem x l → Mem y l → less x y ≡ false → less y x ≡ false → x ≡ y

module _ {A : Type 0} {less : A → A → Bool} (o : IsStrictWeak less) where
  -- No element of a sorted list is less than its head.
  IsSorted-head :
      {a b : A} {l r : List A} → IsSorted less (a ∷ l) → Perm (b ∷ r) (a ∷ l) → less b a ≡ false
  IsSorted-head {a} {b} (Pairwise.cons below rest) p =
      IsBelow-cons less (o.irrefl a) below b ((Perm.mem_iff p).0 mem-cons_self)

  Separates-tail : {a : A} {l : List A} → Separates less (a ∷ l) → Separates less l
  Separates-tail {a} h x y mx my = h x y (mem-cons_of_mem a mx) (mem-cons_of_mem a my)

  pub IsSorted-eq_of_perm :
      (l r : List A) → IsSorted less l → IsSorted less r → Perm l r → Separates less l → l ≡ r
  IsSorted-eq_of_perm [] r sl sr p h = Perm.nil-eq p
  IsSorted-eq_of_perm (a ∷ l) [] sl sr p h = Perm.eq-nil p
  IsSorted-eq_of_perm (a ∷ l) (b ∷ r) sl sr p h =
      let b_in : Mem b (a ∷ l) = (Perm.mem_iff (Perm.symm p)).0 mem-cons_self in
      let heads = h a b mem-cons_self b_in (IsSorted-head sr p) (IsSorted-head sl (Perm.symm p)) in
      let tails = Perm.cons_inv (Perm.trans p (Perm.symm (Perm.cons' heads Perm.rfl))) in
      ap₂ ◌∷◌ heads (
        IsSorted-eq_of_perm l r (Pairwise.of_cons sl) (Pairwise.of_cons sr) tails
          (Separates-tail h))
