-- ===== src/Go/Errors.antt =====
-- Go's error values as this repository builds and inspects them (errors.New, fmt.Errorf, errors.Is).
use directory_rbac_operator.Base.{String, Bool, true, false, ◌+++◌}

-- `E` is the type of the errors that libraries return.
pub data GoError (E : Type 0) : Type 0 where
  -- ldapclient.ErrGroupNotFound
  group_not_found : GoError E
  -- errors.New, or fmt.Errorf with no %w
  plain : String → GoError E
  foreign : E → GoError E
  -- fmt.Errorf("<before>%w<after>", cause)
  wrap : (before : String) → GoError E → (after : String) → GoError E

-- errors.Is(err, ErrGroupNotFound) follows the chain of wrapped errors.
unfoldable pub is_group_not_found : {E : Type 0} → GoError E → Bool
is_group_not_found group_not_found = true
is_group_not_found (plain _) = false
is_group_not_found (foreign _) = false
is_group_not_found (wrap _ cause _) = is_group_not_found cause

-- The predicates that libraries export for their own errors look through wrapping too.
unfoldable pub foreign_test : {E : Type 0} → (E → Bool) → GoError E → Bool
foreign_test p group_not_found = false
foreign_test p (plain _) = false
foreign_test p (foreign e) = p e
foreign_test p (wrap _ cause _) = foreign_test p cause

-- err.Error()
unfoldable pub error_text : {E : Type 0} → (E → String) → GoError E → String
error_text text group_not_found = "ldapclient: group not found"
error_text text (plain s) = s
error_text text (foreign e) = text e
error_text text (wrap before cause after) = before +++ (error_text text cause +++ after)
