-- ===== src/Ldapclient/Tests.antt =====
-- The client's theorems on a directory in memory.
use directory_rbac_operator.Base.{
  arith, subst, length, ◌≤◌, ℕ, suc, String, ◌≡◌, ◌↔◌, refl, ap, Bool, true, false, ◌==◌, Option,
  none, some, List, [], ◌∷◌, if◌then◌else◌, drop,
}
use directory_rbac_operator.Go.Action.{
  Result, ok, err, pure, Action, call, try, ◌>>=◌, ok-injective,
}
use directory_rbac_operator.Go.Sort.{insertion}
use directory_rbac_operator.Ldapclient.Library.{Library, Config, SearchRequest, SearchResult}
use directory_rbac_operator.Ldapclient.Client.{
  connect_and_bind, get_group_members, group_request, member_dns, lookup_group, on_group,
  group_entry,
}
use directory_rbac_operator.Ldapclient.Frame.{CallsKeep}
use directory_rbac_operator.Ldapclient.Closing.{
  Connections, with_handed, get_group_members-open_conns,
}
use directory_rbac_operator.Ldapclient.Secrecy.{Encryption, get_group_members-leaked}
use directory_rbac_operator.Ldapclient.Searches.{Searching, get_group_members-searches}
use directory_rbac_operator.Ldapclient.Unreported.{reports_absence}
use directory_rbac_operator.Ldapclient.Absence.{is_absent, get_group_members-absence}

-- The open connections, whether the latest is TLS, how often something went out in clear, and the searches.
record Network : Type 0 where
  open_conns : List (Unit {0})
  is_tls : Bool
  leaks : ℕ
  searches : ℕ

-- An entry: its attributes with their values.
abbrev Entry : Type 0
Entry = List (String × List String)

-- The errors of the directory.
data LdapError : Type 0 where
  no_such_object referral refused : LdapError

unfoldable values : Entry → String → List String
values [] name = []
values ((name', vs) ∷ entry) name = if name' == name then vs else values entry name

unfoldable first : List String → String
first [] = ""
first (v ∷ vs) = v

-- The directory: a group with three members, of which one was deleted.
unfoldable answer : SearchRequest → Result LdapError (SearchResult Entry)
answer r =
    if r.base_dn == "cn=team"
    then ok (record {
      entries = (("member", "uid=bob" ∷ "uid=gone" ∷ "uid=alice" ∷ []) ∷ []) ∷ [];
      referrals = [];
    })
    else if r.base_dn == "uid=bob"
    then ok (record { entries = (("uid", "bob" ∷ []) ∷ []) ∷ []; referrals = [] })
    else if r.base_dn == "uid=alice"
    then ok (record { entries = (("uid", "alice" ∷ []) ∷ []) ∷ []; referrals = [] })
    else if r.base_dn == "ou=people"
    then ok (record { entries = []; referrals = [] })
    else err no_such_object

unfoldable is_some : {A : Type 0} → Option A → Bool
is_some none = false
is_some (some _) = true

abbrev dialled : Option (Unit {0}) → Action Network LdapError (Unit {0})
dialled t w = (ok tt, record w { open_conns = tt ∷ w.open_conns; is_tls = is_some t })

abbrev lib : Library Network LdapError (Unit {0}) (Unit {0}) (Unit {0}) Entry
lib = record {
  dial_url = λ url t. dialled t;
  start_tls = λ c t w. (ok tt, record w { is_tls = true });
  set_timeout = λ c d w. w;
  bind = λ c dn password w. (ok tt, record w { leaks = if w.is_tls then w.leaks else suc w.leaks });
  search = λ c r w. (answer r, record w { searches = suc w.searches });
  search_with_paging = λ c r n w. (answer r, record w { searches = suc w.searches });
  close = λ c w. record w { open_conns = drop 1 w.open_conns };
  attribute_values = values;
  attribute_value = λ n name. first (values n name);
  is_no_such_object = λ e. elim e [ no_such_object ↦ true | _ ↦ false ];
  is_referral = λ e. elim e [ referral ↦ true | _ ↦ false ];
  escape_filter = λ s. s;
  scope_base_object = 0;
  scope_whole_subtree = 2;
  never_deref_aliases = 0;
  system_tls = tt;
  wait = λ l w. (ok tt, w);
  time_left = λ w. (none, w);
  quote = λ s. s;
}

abbrev cfg : Config (Unit {0}) (Unit {0})
cfg = record {
  url = "ldap://ldap.corp.local";
  bind_dn = "cn=svc";
  bind_password = "secret";
  insecure_skip_tls = false;
  tls_config = none;
  user_search_base = "ou=people";
  group_search_base = "ou=groups";
  username_attribute = "uid";
  directory_type = "OpenLDAP";
  page_size = 0;
  limiter = none;
}

abbrev idle : Network
idle = record { open_conns = []; is_tls = false; leaks = 0; searches = 0 }

keeps_open_conns : CallsKeep lib (λ w. w.open_conns)
keeps_open_conns = record {
  start_tls-Keeps = λ c t. record { keeps = λ w. refl };
  wait-Keeps = λ l. record { keeps = λ w. refl };
  queries = record {
    set_timeout-keeps = λ c d w. refl;
    search-Keeps = λ c r. record { keeps = λ w. refl };
    search_with_paging-Keeps = λ c r n. record { keeps = λ w. refl };
    time_left-keeps = λ w. refl;
  };
}

connections : Connections lib (λ w. w.open_conns)
unfolding with_handed
connections = record {
  dial_url-opens = λ url t w. refl;
  close-closes = λ c l w h. ap (drop 1) h;
  bind-Keeps = λ c dn password. record { keeps = λ w. refl };
  calls = keeps_open_conns;
}

keeps_leaks : CallsKeep lib (λ w. w.leaks)
keeps_leaks = record {
  start_tls-Keeps = λ c t. record { keeps = λ w. refl };
  wait-Keeps = λ l. record { keeps = λ w. refl };
  queries = record {
    set_timeout-keeps = λ c d w. refl;
    search-Keeps = λ c r. record { keeps = λ w. refl };
    search_with_paging-Keeps = λ c r n. record { keeps = λ w. refl };
    time_left-keeps = λ w. refl;
  };
}

encryption : Encryption lib (λ c w. w.is_tls ≡ true) (λ w. w.leaks)
unfolding is_some
encryption = record {
  dial_url-IsTls = λ url t w c ldaps h. refl;
  start_tls-IsTls = λ c t w h. refl;
  set_timeout-IsTls = λ c d w h. h;
  time_left-IsTls = λ c w h. h;
  bind-secret = λ c dn password w h. rw h;
  dial_url-Keeps = λ url t. record { keeps = λ w. refl };
  close-keeps = λ c w. refl;
  calls = keeps_leaks;
}

get_group_members-open_conns_example :
    (get_group_members lib cfg insertion "cn=team" idle).1.open_conns ≡ []
get_group_members-open_conns_example =
    get_group_members-open_conns lib cfg (λ w. w.open_conns) connections insertion "cn=team" idle

get_group_members-leaked_example : (get_group_members lib cfg insertion "cn=team" idle).1.leaks ≡ 0
get_group_members-leaked_example =
    get_group_members-leaked lib cfg (λ c w. w.is_tls ≡ true) (λ w. w.leaks) encryption refl
      insertion "cn=team" idle

get_group_members-absence_example :
    (reports_absence (get_group_members lib cfg insertion "cn=nobody" idle).0 ≡ true) ↔ (
      (c : Unit {0}) × ((connect_and_bind lib cfg idle).0 ≡ ok c)
      × (is_absent lib.is_no_such_object
            (lib.search c (group_request lib cfg "cn=nobody") (connect_and_bind lib cfg idle).1).0
          ≡ true))
get_group_members-absence_example = get_group_members-absence lib cfg insertion "cn=nobody" idle

-- Every answer of this directory fits on a page.
abbrev paged : SearchRequest → ℕ → Result LdapError (SearchResult Entry)
paged r n = answer r

abbrev team : Entry
team = ("member", "uid=bob" ∷ "uid=gone" ∷ "uid=alice" ∷ []) ∷ []

-- One page for the users, and none is there.
searching : Searching lib (λ w. w.searches) (λ r n w. 1)
searching = record {
  search-counts = λ c r w. refl;
  search_with_paging-counts = λ c r n w. omega arith;
  dial_url-Keeps = λ url t. record { keeps = λ w. refl };
  start_tls-Keeps = λ c t. record { keeps = λ w. refl };
  bind-Keeps = λ c dn password. record { keeps = λ w. refl };
  close-keeps = λ c w. refl;
  set_timeout-keeps = λ c d w. refl;
  wait-Keeps = λ l. record { keeps = λ w. refl };
  time_left-keeps = λ w. refl;
}

-- The team lists three names.
team_lists :
    (c : Unit {0}) (w : Network) (group : Entry)
    → (lookup_group lib cfg c "cn=team" w).0 ≡ ok group
    → length (member_dns lib cfg group) ≤ 3
unfolding lookup_group on_group group_entry group_request answer member_dns values ◌>>=◌ try call
    pure
team_lists c w group h =
    subst (λ g. length (member_dns lib cfg g) ≤ 3) (ok-injective h) (omega arith)

get_group_members-searches_example :
    (get_group_members lib cfg insertion "cn=team" idle).1.searches ≤ 5
get_group_members-searches_example =
    get_group_members-searches lib cfg (λ w. w.searches) (λ r n w. 1) searching 1 3 "cn=team"
      (λ w. omega arith) team_lists insertion idle
