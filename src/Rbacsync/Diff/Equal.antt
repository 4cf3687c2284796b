-- ===== src/Rbacsync/Diff/Equal.antt =====
-- SubjectsEqual decides whether two lists hold the same subjects, each as often, where the subjects
-- are of one API group; where they are not, its answer may depend on their order.
use mathlib.Core.Logic.Or
use mathlib.Core.List.{Perm, Mem, mem-cons, not-mem-nil}
use mathlib.Core.List.Perm
use directory_rbac_operator.Base.{
  String, ◌≡◌, ◌≢◌, ◌↔◌, refl, sym, ◌∙◌, true, false, List, [], ◌∷◌, arith, length, perm-length,
  eq_iff, str_lt_irrefl, String-set,
}
use directory_rbac_operator.Go.Sort.{Sorter, insertion, insertion_sort, IsSorted-eq_of_perm}
use directory_rbac_operator.Kube.Objects.{Subject}
use directory_rbac_operator.Rbacsync.Diff.{
  subject_less, same_subject, sorted_subjects, same_elements, subjects_equal,
}
use directory_rbac_operator.Rbacsync.Diff.Order.{
  subject_less-IsStrictWeak, subject_less-tells_apart, same_subject_iff,
}

same_elements_refl : (l : List Subject) → same_elements l l ≡ true
unfolding same_elements
same_elements_refl [] = refl
same_elements_refl (x ∷ xs) = ground (arith, same_elements_refl xs, same_subject_iff x x)

same_elements-eq : (l r : List Subject) → length l ≡ length r → same_elements l r ≡ true → l ≡ r
unfolding same_elements
same_elements-eq [] [] n h = refl
same_elements-eq [] (y ∷ ys) n h = absurd (omega arith)
same_elements-eq (x ∷ xs) [] n h = absurd (omega arith)
same_elements-eq (x ∷ xs) (y ∷ ys) n h =
    ground (arith, same_subject_iff x y, same_elements-eq xs ys)

-- All the subjects of the list belong to one API group.
abbrev pub OfGroup : String → List Subject → Type 0
OfGroup g [] = Unit
OfGroup g (x ∷ xs) = (x.api_group ≡ g) × OfGroup g xs

OfGroup-mem :
    {g : String} {x : Subject} (l : List Subject) → OfGroup g l → Mem x l → x.api_group ≡ g
OfGroup-mem [] h m = absurd (not-mem-nil m)
OfGroup-mem {g} (x ∷ l) h m =
    Or.elim (String-set _ _) (mem-cons.0 m) (λ e. rw e h.0) (OfGroup-mem l h.1)

module _ (s : Sorter Subject) where
  pub subjects_equal-perm : (a b : List Subject) → subjects_equal s a b ≡ true → Perm a b
  unfolding subjects_equal sorted_subjects
  subjects_equal-perm a b h =
      let pa = s.sort-perm subject_less a in
      let pb = s.sort-perm subject_less b in
      let n : length a ≡ length b = ground arith in
      let same =
        same_elements-eq (s.sort subject_less a) (s.sort subject_less b)
          (perm-length _ _ pa ∙ n ∙ sym (perm-length _ _ pb)) (ground arith) in
      Perm.trans (Perm.symm pa) (rw same pb)

  perm-subjects_equal :
      (g : String) (a b : List Subject) → OfGroup g a → Perm a b → subjects_equal s a b ≡ true
  unfolding subjects_equal sorted_subjects
  perm-subjects_equal g a b h p =
      let pa = s.sort-perm subject_less a in
      let pb = s.sort-perm subject_less b in
      let same : s.sort subject_less a ≡ s.sort subject_less b =
        IsSorted-eq_of_perm subject_less-IsStrictWeak _ _
          (s.sort-IsSorted subject_less a subject_less-IsStrictWeak)
          (s.sort-IsSorted subject_less b subject_less-IsStrictWeak)
          (Perm.trans pa (Perm.trans p (Perm.symm pb)))
          (λ x y mx my. subject_less-tells_apart x y (
            OfGroup-mem a h ((Perm.mem_iff pa).0 mx)
            ∙ sym (OfGroup-mem a h ((Perm.mem_iff pa).0 my)))) in
      ground (arith, perm-length a b p, same, same_elements_refl (s.sort subject_less b))

-- For a list whose subjects are all of one API group, SubjectsEqual answers true exactly when
-- the other list is a permutation of it, whichever sort the standard library uses.
pub subjects_equal_iff_perm :
    (s : Sorter Subject) (g : String) (a b : List Subject)
    → OfGroup g a
    → (subjects_equal s a b ≡ true) ↔ Perm a b
subjects_equal_iff_perm s g a b h = (subjects_equal-perm s a b, perm-subjects_equal s g a b h)

-- Two different subjects that agree in kind, namespace and name are not compared by the sort: with the
-- insertion sort that package sort uses on short slices, the same two in the other order are
-- reported as different.
subjects_equal_order :
    (x y : Subject)
    → x.kind ≡ y.kind
    → x.namespace ≡ y.namespace
    → x.name ≡ y.name
    → x.api_group ≢ y.api_group
    → (Perm (x ∷ y ∷ []) (y ∷ x ∷ []))
      × (subjects_equal insertion (x ∷ y ∷ []) (y ∷ x ∷ []) ≡ false)
unfolding subjects_equal sorted_subjects insertion_sort subject_less same_elements same_subject
subjects_equal_order x y k n m g = (
  Perm.swap y x [],
  ground (
    arith,
    eq_iff x.kind y.kind,
    eq_iff y.kind x.kind,
    eq_iff x.namespace y.namespace,
    eq_iff y.namespace x.namespace,
    eq_iff x.api_group y.api_group,
    eq_iff y.api_group x.api_group,
    str_lt_irrefl x.name,
  ),
)
