-- ===== src/Ldapclient/Client.antt =====
-- internal/ldapclient/client.go: every function of the client.
use directory_rbac_operator.Base.{
  ℕ, String, ◌+++◌, ◌==◌, starts_with, Bool, not, ◌&&◌, Option, none, some, List, [], ◌∷◌, nat_eq,
  if◌then◌else◌, str_lt,
}
use directory_rbac_operator.Go.Errors.{GoError, group_not_found, wrap, foreign_test}
use directory_rbac_operator.Go.Action.{
  Result, ok, err, Action, Effect, pure, fail, reading, try, deferring, perform, ◌>>=◌, ◌>>◌, call,
  wrapping,
}
use directory_rbac_operator.Go.Sort.{Sorter}
use directory_rbac_operator.Kube.Objects.{Duration}
use directory_rbac_operator.Api.{directory_type_active_directory}
use directory_rbac_operator.Ldapclient.Library.{Library, Config, SearchRequest, SearchResult}

abbrev pub default_page_size : ℕ
default_page_size = 1000

-- MatchingRuleInChainOID
abbrev pub matching_rule_in_chain_oid : String
matching_rule_in_chain_oid = "1.2.840.113556.1.4.1941"

module _ {W E C T L N : Type 0} (lib : Library W E C T L N) (cfg : Config T L) where
  unfoldable pub page_size : ℕ
  page_size = if nat_eq cfg.page_size 0 then default_page_size else cfg.page_size

  unfoldable pub or_system : Option T → T
  or_system none = lib.system_tls
  or_system (some t) = t

  -- tlsConfig
  unfoldable pub tls_config : T
  unfolding or_system
  tls_config = or_system cfg.tls_config

  -- What dial does with the answer of StartTLS.
  unfoldable pub on_start_tls : C → Result (GoError E) (Unit {0}) → Action W (GoError E) C
  on_start_tls conn (ok _) = pure conn
  on_start_tls conn (err e) = do perform (lib.close conn); fail (wrap "starttls: " e "")

  -- The upgrade of a connection that is not TLS from the start.
  unfoldable pub secure : C → Bool → Action W (GoError E) C
  secure conn is_ldaps =
      if not is_ldaps && not cfg.insecure_skip_tls
      then (do upgraded ← try (call (lib.start_tls conn tls_config)); on_start_tls conn upgraded)
      else pure conn

  unfoldable pub dial : Action W (GoError E) C
  unfolding tls_config
  dial =
      let is_ldaps = starts_with cfg.url "ldaps://" in
      (do
        conn ← call (lib.dial_url cfg.url (if is_ldaps then some tls_config else none))
        secure conn is_ldaps)

  -- The wait on the limiter, if one is set.
  unfoldable pub wait_turn : Option L → Action W (GoError E) (Unit {0})
  wait_turn none = pure tt
  wait_turn (some limiter) = wrapping "ldapclient: rate limit: " "" (call (lib.wait limiter))

  unfoldable pub apply_deadline : C → Option Duration → Effect W
  apply_deadline conn none w = w
  apply_deadline conn (some left) w = lib.set_timeout conn left w

  -- What connectAndBind does with the answer of Bind.
  unfoldable pub on_bind : C → Result (GoError E) (Unit {0}) → Action W (GoError E) C
  on_bind conn (ok _) = pure conn
  on_bind conn (err e) = do perform (lib.close conn); fail (wrap "ldapclient: bind: " e "")

  -- connectAndBind after the dial
  unfoldable pub log_in : C → Action W (GoError E) C
  log_in conn = do
    left ← reading lib.time_left
    perform (apply_deadline conn left)
    bound ← try (call (lib.bind conn cfg.bind_dn cfg.bind_password))
    on_bind conn bound

  unfoldable pub connect_and_bind : Action W (GoError E) C
  connect_and_bind = do
    wait_turn cfg.limiter
    conn ← wrapping "ldapclient: dial: " "" dial
    log_in conn

  unfoldable pub ping : Action W (GoError E) (Unit {0})
  ping = do conn ← connect_and_bind; perform (lib.close conn); pure tt

  -- The search of the entry with a given name itself.
  unfoldable pub entry_request : String → List String → SearchRequest
  entry_request dn attributes = record {
    base_dn = dn;
    scope = lib.scope_base_object;
    deref_aliases = lib.never_deref_aliases;
    filter = "(objectClass=*)";
    attributes = attributes;
  }

  unfoldable pub group_request : String → SearchRequest
  unfolding entry_request
  group_request dn = entry_request dn ("member" ∷ "uniqueMember" ∷ [])

  unfoldable pub user_request : String → SearchRequest
  unfolding entry_request
  user_request dn = entry_request dn (cfg.username_attribute ∷ [])

  -- The error for a group that is not there.
  unfoldable pub no_group : String → GoError E
  no_group dn = wrap "ldapclient: " group_not_found (": " +++ dn)

  unfoldable pub group_entry : String → List N → Action W (GoError E) N
  group_entry dn [] = fail (no_group dn)
  group_entry dn (entry ∷ _) = pure entry

  -- What lookupGroup does with the answer of the search.
  unfoldable pub on_group : String → Result (GoError E) (SearchResult N) → Action W (GoError E) N
  on_group dn (ok result) = group_entry dn result.entries
  on_group dn (err e) =
      if foreign_test lib.is_no_such_object e
      then fail (no_group dn)
      else if foreign_test lib.is_referral e
      then fail (
          wrap
            ("ldapclient: lookup group "
              +++ (dn
                  +++ ": directory returned a referral instead of a result, and referral chasing is not implemented: "))
            e "")
      else fail (wrap ("ldapclient: lookup group " +++ (dn +++ ": ")) e "")

  unfoldable pub lookup_group : C → String → Action W (GoError E) N
  lookup_group conn dn = do
    result ← try (call (lib.search conn (group_request dn)))
    on_group dn result

  unfoldable pub membership_filter : String → String
  membership_filter group_dn =
      let dn = lib.escape_filter group_dn in
      if cfg.directory_type == directory_type_active_directory
      then "(memberOf:" +++ (matching_rule_in_chain_oid +++ (":=" +++ (dn +++ ")")))
      else "(memberOf=" +++ (dn +++ ")")

  -- The reverse query of resolveMembers.
  unfoldable pub members_request : String → SearchRequest
  unfolding membership_filter
  members_request group_dn = record {
    base_dn = cfg.user_search_base;
    scope = lib.scope_whole_subtree;
    deref_aliases = lib.never_deref_aliases;
    filter = membership_filter group_dn;
    attributes = cfg.username_attribute ∷ [];
  }

  unfoldable pub first_username : List N → String
  first_username [] = ""
  first_username (entry ∷ _) = lib.attribute_value entry cfg.username_attribute

  -- What lookupUsername does with the answer of the search.
  unfoldable pub on_user : Result (GoError E) (SearchResult N) → Action W (GoError E) String
  on_user (ok result) = pure (first_username result.entries)
  on_user (err e) =
      if foreign_test lib.is_no_such_object e
      then pure ""
      else if foreign_test lib.is_referral e
      then pure ""
      else fail e

  unfoldable pub lookup_username : C → String → Action W (GoError E) String
  lookup_username conn dn = do
    result ← try (call (lib.search conn (user_request dn)))
    on_user result

  -- `append` guarded by a test for the empty name.
  unfoldable pub add_name : String → List String → List String
  add_name name names = if name == "" then names else name ∷ names

  -- The loop of resolveMembers over the names of the member entries.
  unfoldable pub lookup_members : C → List String → Action W (GoError E) (List String)
  lookup_members conn [] = pure []
  lookup_members conn (dn ∷ dns) = do
    username ← wrapping ("resolve member " +++ (lib.quote dn +++ ": ")) "" (lookup_username conn dn)
    members ← lookup_members conn dns
    pure (add_name username members)

  unfoldable pub usernames : List N → List String
  unfolding add_name
  usernames [] = []
  usernames (entry ∷ entries) =
      add_name (lib.attribute_value entry cfg.username_attribute) (usernames entries)

  unfoldable or_unique_member : N → List String → List String
  or_unique_member entry [] = lib.attribute_values entry "uniqueMember"
  or_unique_member entry (dn ∷ dns) = dn ∷ dns

  -- The names of the member entries that the group lists.
  unfoldable pub member_dns : N → List String
  unfolding or_unique_member
  member_dns entry = or_unique_member entry (lib.attribute_values entry "member")

  -- What resolveMembers does with the answer of the reverse query.
  unfoldable pub on_members : C → N → List N → Action W (GoError E) (List String)
  on_members conn group (entry ∷ entries) = pure (usernames (entry ∷ entries))
  on_members conn group [] = lookup_members conn (member_dns group)

  unfoldable pub resolve_members : C → String → N → Action W (GoError E) (List String)
  resolve_members conn group_dn group = do
    result ←
        wrapping "query members via memberOf: " ""
          (call (lib.search_with_paging conn (members_request group_dn) page_size))
    on_members conn group result.entries

  -- GetGroupMembers on the connection, whose Close is deferred; `sort` is that of sort.Strings.
  unfoldable pub members_on : Sorter String → C → String → Action W (GoError E) (List String)
  members_on s conn group_dn = do
    group ← lookup_group conn group_dn
    members ←
        wrapping ("ldapclient: resolve members for " +++ (group_dn +++ ": ")) ""
          (resolve_members conn group_dn group)
    pure (s.sort str_lt members)

  unfoldable pub get_group_members : Sorter String → String → Action W (GoError E) (List String)
  get_group_members s group_dn = do
    conn ← connect_and_bind
    deferring (lib.close conn) (members_on s conn group_dn)
