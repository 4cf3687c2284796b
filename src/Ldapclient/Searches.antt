-- ===== src/Ldapclient/Searches.antt =====
-- internal/ldapclient/client.go: the search requests that a call sends.
use directory_rbac_operator.Base.{
  ℕ, suc, String, ◌≡◌, ◌+◌, ◌≤◌, arith, Option, List, [], ◌∷◌, length,
}
use directory_rbac_operator.Go.Action.{ok, try, call, map_err}
use directory_rbac_operator.Go.Action.Adds.{
  Adds, Keeps-Adds, >>=-Adds, wrapping-Adds, deferring-Adds, Adds-weaker,
}
use directory_rbac_operator.Go.Action.Keeps.{Keeps, KeepsEffect, keeps_rules, pure-Keeps}
use directory_rbac_operator.Go.Sort.{Sorter}
use directory_rbac_operator.Kube.Objects.{Duration}
use directory_rbac_operator.Ldapclient.Library.{Library, Config, SearchRequest}
use directory_rbac_operator.Ldapclient.Client.{
  dial, log_in, connect_and_bind, lookup_group, lookup_username, lookup_members, member_dns,
  on_members, resolve_members, members_on, get_group_members, members_request, page_size,
}
use directory_rbac_operator.Ldapclient.Frame.{
  apply_deadline-keeps, wait_turn-Keeps, secure-Keeps, on_bind-Keeps, on_group-Keeps, on_user-Keeps,
}

-- The search requests that a directory was sent. Search sends one, SearchWithPaging one for each page that it asks for,
-- and the other calls none. `pages` says how many pages a paged search asks for in a world.
pub record Searching {W E C T L N : Type 0} (lib : Library W E C T L N) (searches : W → ℕ)
    (pages : SearchRequest → ℕ → W → ℕ) : Type 0 where
  pub search-counts :
      (c : C) (r : SearchRequest) (w : W) → searches (lib.search c r w).1 ≡ suc (searches w)
  pub search_with_paging-counts :
      (c : C) (r : SearchRequest) (n : ℕ) (w : W)
      → searches (lib.search_with_paging c r n w).1 ≡ pages r n w + searches w
  pub dial_url-Keeps : (url : String) (t : Option T) → Keeps searches (lib.dial_url url t)
  pub start_tls-Keeps : (c : C) (t : T) → Keeps searches (lib.start_tls c t)
  pub bind-Keeps : (c : C) (dn password : String) → Keeps searches (lib.bind c dn password)
  pub close-keeps : (c : C) → KeepsEffect searches (lib.close c)
  pub set_timeout-keeps : (c : C) (d : Duration) → KeepsEffect searches (lib.set_timeout c d)
  pub wait-Keeps : (limiter : L) → Keeps searches (lib.wait limiter)
  pub time_left-keeps : (w : W) → searches (lib.time_left w).1 ≡ searches w

module _ {W E C T L N : Type 0} (lib : Library W E C T L N) (cfg : Config T L) (searches : W → ℕ)
    (pages : SearchRequest → ℕ → W → ℕ) (searching : Searching lib searches pages) where
  open searching use {
    search-counts, search_with_paging-counts, dial_url-Keeps, start_tls-Keeps, bind-Keeps,
    close-keeps, set_timeout-keeps, wait-Keeps, time_left-keeps,
  }

  dial-Keeps : Keeps searches (dial lib cfg)
  unfolding dial
  dial-Keeps =
      let upgraded-Keeps = secure-Keeps lib cfg searches close-keeps start_tls-Keeps in
      search (keeps_rules, dial_url-Keeps, upgraded-Keeps) depth 9

  log_in-Keeps : (c : C) → Keeps searches (log_in lib cfg c)
  unfolding log_in
  log_in-Keeps c =
      let deadline-keeps = apply_deadline-keeps lib cfg searches set_timeout-keeps in
      let answer-Keeps = on_bind-Keeps lib cfg searches close-keeps in
      search (keeps_rules, time_left-keeps, deadline-keeps, bind-Keeps, answer-Keeps) depth 9

  connect_and_bind-Keeps : Keeps searches (connect_and_bind lib cfg)
  unfolding connect_and_bind
  connect_and_bind-Keeps =
      let turn-Keeps = wait_turn-Keeps lib cfg searches wait-Keeps in
      search (keeps_rules, turn-Keeps, dial-Keeps, log_in-Keeps) depth 9

  searched-Adds : (c : C) (r : SearchRequest) → Adds searches 1 (try (call (lib.search c r)))
  unfolding try call map_err
  searched-Adds c r = record { bounded = λ w. omega (arith, search-counts c r w) }

  lookup_group-Adds : (c : C) (dn : String) → Adds searches 1 (lookup_group lib cfg c dn)
  unfolding lookup_group
  lookup_group-Adds c dn =
      >>=-Adds 1 0 1 _ _ (omega arith) (searched-Adds c _)
        (λ w r q. Keeps-Adds 0 _ (on_group-Keeps lib cfg searches dn r))

  lookup_username-Adds : (c : C) (dn : String) → Adds searches 1 (lookup_username lib cfg c dn)
  unfolding lookup_username
  lookup_username-Adds c dn =
      >>=-Adds 1 0 1 _ _ (omega arith) (searched-Adds c _)
        (λ w r q. Keeps-Adds 0 _ (on_user-Keeps lib cfg searches r))

  lookup_members-Adds :
      (c : C) (dns : List String) → Adds searches (length dns) (lookup_members lib cfg c dns)
  unfolding lookup_members
  lookup_members-Adds c [] = Keeps-Adds 0 _ (pure-Keeps [])
  lookup_members-Adds c (dn ∷ dns) =
      >>=-Adds 1 (length dns) (length (dn ∷ dns)) _ _ (omega arith)
        (wrapping-Adds _ _ 1 _ (lookup_username-Adds c dn))
        (λ w name q.
          >>=-Adds (length dns) 0 (length dns) _ _ (omega arith) (lookup_members-Adds c dns)
            (λ w' names q'. Keeps-Adds 0 _ (pure-Keeps _)))

  on_members-Adds :
      (c : C) (group : N) (entries : List N)
      → Adds searches (length (member_dns lib cfg group)) (on_members lib cfg c group entries)
  unfolding on_members
  on_members-Adds c group [] = lookup_members-Adds c (member_dns lib cfg group)
  on_members-Adds c group (entry ∷ entries) = Keeps-Adds _ _ (pure-Keeps _)

  paged-Adds :
      (most : ℕ) (c : C) (r : SearchRequest) (n : ℕ)
      → ((w : W) → pages r n w ≤ most)
      → Adds searches most (call (lib.search_with_paging c r n))
  unfolding call map_err
  paged-Adds most c r n few = record {
    bounded = λ w. omega (arith, few w, search_with_paging-counts c r n w);
  }

  module _ (most listed : ℕ) (dn : String)
      (few_pages : (w : W) → pages (members_request lib cfg dn) (page_size lib cfg) w ≤ most)
      (few_names : (c : C) (w : W) (group : N)
        → (lookup_group lib cfg c dn w).0 ≡ ok group
        → length (member_dns lib cfg group) ≤ listed) where
    resolve_members-Adds :
        (c : C) (group : N)
        → Adds searches
            (most + length (member_dns lib cfg group))
            (resolve_members lib cfg c dn group)
    unfolding resolve_members
    resolve_members-Adds c group =
        let lookups = length (member_dns lib cfg group) in
        >>=-Adds most lookups (most + lookups) _ _ (omega arith)
          (wrapping-Adds _ _ most _ (paged-Adds most c _ _ few_pages))
          (λ w result q. on_members-Adds c group result.entries)

    members_on-Adds :
        (s : Sorter String) (c : C) → Adds searches (1 + most + listed) (members_on lib cfg s c dn)
    unfolding members_on
    members_on-Adds s c =
        >>=-Adds 1 (most + listed) (1 + most + listed) _ _ (omega arith) (lookup_group-Adds c dn)
          (λ w group q.
            >>=-Adds (most + listed) 0 (most + listed) _ _ (omega arith)
              (wrapping-Adds _ _ (most + listed) _ (
                Adds-weaker (most + length (member_dns lib cfg group)) (most + listed) _
                  (omega (arith, few_names c w group q)) (resolve_members-Adds c group)))
              (λ w' names q'. Keeps-Adds 0 _ (pure-Keeps _)))

    -- Where the reverse query for the group's members asks for no more than some number of pages of the configured
    -- size, and no answer of the directory for the group lists more than some number of names, GetGroupMembers sends
    -- the directory at most one search request more than the two numbers together, however it ends: one for the
    -- group, one for each page, and one for each name.
    pub get_group_members-searches :
        (s : Sorter String) (w : W)
        → searches (get_group_members lib cfg s dn w).1 ≤ 1 + most + listed + searches w
    unfolding get_group_members
    get_group_members-searches s w =
        let bound = 1 + most + listed in
        let whole : Adds searches bound (get_group_members lib cfg s dn) =
          >>=-Adds 0 bound bound _ _ (omega arith) (Keeps-Adds 0 _ connect_and_bind-Keeps)
            (λ w' c q. deferring-Adds _ bound _ (close-keeps c) (members_on-Adds s c)) in
        whole.bounded w
