-- ===== src/Rbacsync/Tests.antt =====
-- The comparisons and summaries on small inputs.
use mathlib.Core.List.{Perm}
use directory_rbac_operator.Base.{String, ◌≡◌, ◌↔◌, refl, true, false, arith, eq_iff, List, [], ◌∷◌}
use directory_rbac_operator.Go.Sort.{insertion, insertion_sort}
use directory_rbac_operator.Kube.Objects.{Subject}
use directory_rbac_operator.Rbacsync.Diff.{
  subjects_equal, sorted_subjects, subject_less, same_elements, same_subject, members_hash,
}
use directory_rbac_operator.Rbacsync.Diff.Equal.{subjects_equal_iff_perm}
use directory_rbac_operator.Rbacsync.Diff.Summary.{IsName, members_hash_detects, one_line}

abbrev user : String → String → Subject
user group name = record { kind = "User"; api_group = group; name = name; namespace = "" }

abbrev team : List Subject
team = user "rbac" "alice" ∷ user "rbac" "bob" ∷ []

abbrev reordered : List Subject
reordered = user "rbac" "bob" ∷ user "rbac" "alice" ∷ []

-- Order does not matter, and a difference is found.
equal_reordered : subjects_equal insertion team reordered ≡ true
unfolding subjects_equal sorted_subjects insertion_sort subject_less same_elements same_subject
equal_reordered = refl

unequal_carol :
    subjects_equal insertion team (user "rbac" "alice" ∷ user "rbac" "carol" ∷ []) ≡ false
unfolding subjects_equal sorted_subjects insertion_sort subject_less same_elements same_subject
unequal_carol = refl

subjects_equal_iff_perm_example :
    (subjects_equal insertion team reordered ≡ true) ↔ Perm team reordered
subjects_equal_iff_perm_example =
    subjects_equal_iff_perm insertion "rbac" team reordered (refl, (refl, tt))

alice-IsName : IsName "alice"
unfolding one_line
alice-IsName = record { filled = λ e. ground (arith, eq_iff "alice" ""); one = refl }

bob-IsName : IsName "bob"
unfolding one_line
bob-IsName = record { filled = λ e. ground (arith, eq_iff "bob" ""); one = refl }

members_hash_detects_example :
    (members_hash (λ s. s) ("alice" ∷ []) ≡ members_hash (λ s. s) ("alice" ∷ "bob" ∷ []))
    ↔ (◌≡◌ {A = List String} ("alice" ∷ []) ("alice" ∷ "bob" ∷ []))
members_hash_detects_example =
    members_hash_detects (λ s. s) ("alice" ∷ []) ("alice" ∷ "bob" ∷ []) (alice-IsName, tt)
      (alice-IsName, (bob-IsName, tt)) (λ e. e)
