-- ===== src/Ldapclient/Names.antt =====
-- internal/ldapclient/client.go: which names GetGroupMembers returns, in a directory that stands still.
use directory_rbac_operator.Base.{
  ℕ, String, ◌≡◌, ◌==◌, Bool, true, ◌&&◌, ◌||◌, List, [], ◌∷◌, map, if◌then◌else◌,
}
use directory_rbac_operator.Go.Action.{Result, ok, err}
use directory_rbac_operator.Ldapclient.Library.{Library, Config, SearchRequest, SearchResult}
use directory_rbac_operator.Ldapclient.Client.{
  first_username, member_dns, group_request, user_request, members_request, page_size,
}

-- The names that are not empty.
unfoldable pub non_empty : List String → List String
non_empty [] = []
non_empty (x ∷ xs) = if x == "" then non_empty xs else x ∷ non_empty xs

-- A directory that stands still: whatever the connection and the time, it answers a search without paging in one way,
-- which may be cut short, and a paged search in one way for each size of the pages.
pub record IsSteady {W E C T L N : Type 0} (lib : Library W E C T L N)
    (answer : SearchRequest → Result E (SearchResult N))
    (paged : SearchRequest → ℕ → Result E (SearchResult N)) : Type 0 where
  pub search-answer : (c : C) (r : SearchRequest) (w : W) → (lib.search c r w).0 ≡ answer r
  pub search_with_paging-answer :
      (c : C) (r : SearchRequest) (n : ℕ) (w : W) → (lib.search_with_paging c r n w).0 ≡ paged r n

module _ {W E C T L N : Type 0} (lib : Library W E C T L N) (cfg : Config T L)
    (answer : SearchRequest → Result E (SearchResult N)) where
  -- The name in the entry that a search found, and the empty one where it found none.
  unfoldable found_name : Result E (SearchResult N) → String
  found_name (err e) = ""
  found_name (ok r) = first_username lib cfg r.entries

  unfoldable pub name_of : String → String
  unfolding found_name
  name_of dn = found_name (answer (user_request lib cfg dn))

  -- An answer that does not fail a sync: a result, a name that is not there, or one that is elsewhere.
  unfoldable settles : Result E (SearchResult N) → Bool
  settles (ok r) = true
  settles (err e) = lib.is_no_such_object e || lib.is_referral e

  unfoldable pub all_settle : List String → Bool
  unfolding settles
  all_settle [] = true
  all_settle (dn ∷ dns) = settles (answer (user_request lib cfg dn)) && all_settle dns

  -- Where the reverse query finds users, these are the members, and else those that the group lists.
  unfoldable pub candidates : N → List N → List String
  candidates group [] = map name_of (member_dns lib cfg group)
  candidates group (user ∷ users) =
      map (λ n. lib.attribute_value n cfg.username_attribute) (user ∷ users)

  -- What the directory must answer for a group's members to be resolved.
  pub record IsResolvable (paged : SearchRequest → ℕ → Result E (SearchResult N)) (dn : String)
      (group : N) (users : List N) : Type 0 where
    pub group_result : SearchResult N
    pub others : List N
    pub users_result : SearchResult N
    pub group_found : answer (group_request lib cfg dn) ≡ ok group_result
    pub is_first : group_result.entries ≡ group ∷ others
    pub users_found : paged (members_request lib cfg dn) (page_size lib cfg) ≡ ok users_result
    pub are_users : users_result.entries ≡ users
    pub settled : (users ≡ []) → all_settle (member_dns lib cfg group) ≡ true
