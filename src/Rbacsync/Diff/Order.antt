-- ===== src/Rbacsync/Diff/Order.antt =====
-- The comparison of subjects is a strict weak order, and separates subjects of one API group.
use directory_rbac_operator.Base.{
  String, ◌≡◌, ◌↔◌, ◌⊎◌, Bool, true, false, not, arith, ◌==◌, eq_iff, eq_refl, if◌then◌else◌,
  str_lt, str_lt_trans, str_lt_irrefl, str_lt_asymm, str_lt_total, str_lt_weak, compare_total,
}
use directory_rbac_operator.Go.Sort.{IsStrictWeak}
use directory_rbac_operator.Kube.Objects.{Subject}
use directory_rbac_operator.Rbacsync.Diff.{subject_less, same_subject}

-- Elements compared by a text alone, and by a text before anything else.
abbrev by_key : {A : Type 0} → (A → String) → A → A → Bool
by_key f x y = str_lt (f x) (f y)

abbrev lexical : {A : Type 0} → (A → String) → (A → A → Bool) → A → A → Bool
lexical f less x y = if not (f x == f y) then str_lt (f x) (f y) else less x y

by_key-IsStrictWeak : {A : Type 0} (f : A → String) → IsStrictWeak (by_key f)
by_key-IsStrictWeak f = record {
  irrefl = λ a. str_lt_irrefl (f a);
  trans = λ a b c. str_lt_trans (f a) (f b) (f c);
  weak = λ a b c. str_lt_weak (f a) (f b) (f c);
}

module _ {A : Type 0} (f : A → String) {less : A → A → Bool} (o : IsStrictWeak less) where
  lexical_irrefl : (a : A) → lexical f less a a ≡ false
  lexical_irrefl a = ground (arith, eq_refl (f a), o.irrefl a)

  lexical_trans :
      (a b c : A)
      → lexical f less a b ≡ true
      → lexical f less b c ≡ true
      → lexical f less a c ≡ true
  lexical_trans a b c h k = ground (
    arith,
    o.trans a b c,
    eq_iff (f a) (f b),
    eq_iff (f b) (f c),
    eq_iff (f a) (f c),
    str_lt_trans (f a) (f b) (f c),
    str_lt_asymm (f a) (f b),
  )

  lexical-weak :
      (a b c : A)
      → lexical f less a c ≡ true
      → (lexical f less a b ≡ true) ⊎ (lexical f less b c ≡ true)
  lexical-weak a b c h = ground (
    arith,
    o.weak a b c,
    eq_iff (f a) (f b),
    eq_iff (f b) (f c),
    eq_iff (f a) (f c),
    str_lt_weak (f a) (f b) (f c),
    compare_total (f a) (f b),
  )

  lexical-IsStrictWeak : IsStrictWeak (lexical f less)
  lexical-IsStrictWeak = record {
    irrefl = lexical_irrefl;
    trans = lexical_trans;
    weak = lexical-weak;
  }

pub subject_less-IsStrictWeak : IsStrictWeak subject_less
unfolding subject_less
subject_less-IsStrictWeak =
    lexical-IsStrictWeak (λ x. x.kind)
      (lexical-IsStrictWeak (λ x. x.namespace) (by_key-IsStrictWeak (λ x. x.name)))

-- Subjects that the comparison does not tell apart differ in their API group at most.
pub subject_less-tells_apart :
    (x y : Subject)
    → x.api_group ≡ y.api_group
    → subject_less x y ≡ false
    → subject_less y x ≡ false
    → x ≡ y
unfolding subject_less
subject_less-tells_apart x y g h k = ground (
  arith,
  eq_iff x.kind y.kind,
  eq_iff x.namespace y.namespace,
  eq_iff y.kind x.kind,
  eq_iff y.namespace x.namespace,
  str_lt_total x.kind y.kind,
  str_lt_total x.namespace y.namespace,
  str_lt_total x.name y.name,
)

-- `==` on subjects is equality.
pub same_subject_iff : (a b : Subject) → (same_subject a b ≡ true) ↔ (a ≡ b)
unfolding same_subject
same_subject_iff a b = ground (
  arith,
  eq_iff a.kind b.kind,
  eq_iff a.api_group b.api_group,
  eq_iff a.name b.name,
  eq_iff a.namespace b.namespace,
)
