-- ===== src/Ldapclient/Library.antt =====
-- What internal/ldapclient takes from github.com/go-ldap/ldap/v3, golang.org/x/time/rate and fmt, as
-- parameters, and the configuration that the client is built from.
use directory_rbac_operator.Base.{ℕ, String, Bool, Option, List}
use directory_rbac_operator.Go.Action.{Action, Effect}
use directory_rbac_operator.Kube.Objects.{Duration}

-- What ldap.NewSearchRequest is given: the limits and controls are always zero, and are left out.
pub record SearchRequest : Type 0 where
  pub base_dn : String
  pub scope : ℕ
  pub deref_aliases : ℕ
  pub filter : String
  pub attributes : List String

-- ldap.SearchResult, over the type of its entries.
pub record SearchResult (N : Type 0) : Type 0 where
  pub entries : List N
  pub referrals : List String

-- `C`: a connection, `T`: a *tls.Config, `L`: a *rate.Limiter, `N`: an *ldap.Entry.
pub record Library (W E C T L N : Type 0) : Type 0 where
  -- ldap.DialURL, with ldap.DialWithTLSConfig where a configuration is given
  pub dial_url : String → Option T → Action W E C
  -- the methods of ldapConn; the error of Close is ignored wherever it is called
  pub start_tls : C → T → Action W E (Unit {0})
  pub set_timeout : C → Duration → Effect W
  pub bind : C → String → String → Action W E (Unit {0})
  pub search : C → SearchRequest → Action W E (SearchResult N)
  pub search_with_paging : C → SearchRequest → ℕ → Action W E (SearchResult N)
  pub close : C → Effect W
  -- GetAttributeValues, GetAttributeValue
  pub attribute_values : N → String → List String
  pub attribute_value : N → String → String
  -- ldap.IsErrorWithCode for the two codes that the client looks for
  pub is_no_such_object : E → Bool
  pub is_referral : E → Bool
  pub escape_filter : String → String
  pub scope_base_object : ℕ
  pub scope_whole_subtree : ℕ
  pub never_deref_aliases : ℕ
  -- &tls.Config{}: the system's trust store
  pub system_tls : T
  -- (*rate.Limiter).Wait
  pub wait : L → Action W E (Unit {0})
  -- time.Until of the context's deadline, where it has one
  pub time_left : W → Option Duration × W
  -- the verb %q
  pub quote : String → String

-- Config
pub record Config (T L : Type 0) : Type 0 where
  pub url : String
  pub bind_dn : String
  pub bind_password : String
  pub insecure_skip_tls : Bool
  pub tls_config : Option T
  pub user_search_base : String
  pub group_search_base : String
  pub username_attribute : String
  pub directory_type : String
  pub page_size : ℕ
  pub limiter : Option L
