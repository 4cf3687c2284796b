-- ===== src/Rbacsync/Diff.antt =====
-- internal/rbacsync/diff.go: subjects compared whatever their order, and the summaries of the members
-- that a binding's status keeps.
pub mod Order
pub mod Equal
pub mod Summary
use directory_rbac_operator.Base.{
  ℕ, String, Bool, true, false, not, ◌&&◌, List, [], ◌∷◌, length, take, ltb, leb, nat_eq, str_lt,
  ◌==◌, ◌+++◌, if◌then◌else◌,
}
use directory_rbac_operator.Go.Sort.{Sorter}
use directory_rbac_operator.Kube.Objects.{Subject}

-- The function that sortedSubjects passes to sort.Slice.
unfoldable pub subject_less : Subject → Subject → Bool
subject_less x y =
    if not (x.kind == y.kind)
    then str_lt x.kind y.kind
    else if not (x.namespace == y.namespace)
    then str_lt x.namespace y.namespace
    else str_lt x.name y.name

-- `==` on the struct compares every field.
unfoldable pub same_subject : Subject → Subject → Bool
same_subject x y =
    x.kind == y.kind && x.api_group == y.api_group && x.name == y.name && x.namespace == y.namespace

-- sortedSubjects copies, then sorts the copy.
unfoldable pub sorted_subjects : Sorter Subject → List Subject → List Subject
sorted_subjects s = s.sort subject_less

-- The loop over the indices of the first slice, which panics where the second is shorter: here
-- that is `false`, and SubjectsEqual has compared the lengths before.
unfoldable pub same_elements : List Subject → List Subject → Bool
same_elements [] ys = true
same_elements (x ∷ xs) [] = false
same_elements (x ∷ xs) (y ∷ ys) = same_subject x y && same_elements xs ys

-- SubjectsEqual
unfoldable pub subjects_equal : Sorter Subject → List Subject → List Subject → Bool
subjects_equal s a b =
    if not (nat_eq (length a) (length b))
    then false
    else same_elements (sorted_subjects s a) (sorted_subjects s b)

abbrev pub preview_cap : ℕ
preview_cap = 20

-- PreviewMembers
unfoldable pub preview_members : List String → List String × Bool
preview_members members =
    if leb (length members) preview_cap then (members, false) else (take preview_cap members, true)

-- strings.Join
unfoldable pub join : String → List String → String
join sep [] = ""
join sep (s ∷ []) = s
join sep (s ∷ t ∷ l) = s +++ (sep +++ join sep (t ∷ l))

-- MembersHash: `hash` is the hexadecimal SHA-256 of crypto/sha256 and encoding/hex.
unfoldable pub members_hash : (String → String) → List String → String
unfolding join
members_hash hash members = hash (join "\n" members)

-- math.MaxInt32
abbrev pub max_int32 : ℕ
max_int32 = 2147483647

-- memberCount: what is converted to an int32 fits in it.
unfoldable pub clamped_count : ℕ → ℕ
clamped_count count = if ltb max_int32 count then max_int32 else count

-- MemberCount
unfoldable pub member_count : List String → ℕ
unfolding clamped_count
member_count members = clamped_count (length members)
