-- ===== src/Ldapclient/Frame.antt =====
-- internal/ldapclient/client.go: what the client's queries leave alone.
use directory_rbac_operator.Base.{
  ℕ, String, ◌≡◌, refl, Option, none, some, List, [], ◌∷◌, inl, inr, Bool-cases, Bool, not, ◌&&◌,
}
use directory_rbac_operator.Go.Errors.{GoError, foreign_test}
use directory_rbac_operator.Go.Action.{Result, ok, err, fail}
use directory_rbac_operator.Go.Action.Keeps.{
  Keeps, KeepsEffect, keeps_rules, pure-Keeps, fail-Keeps, wrapping-Keeps, deferring-Keeps,
  >>=-Keeps,
}
use directory_rbac_operator.Go.Sort.{Sorter}
use directory_rbac_operator.Kube.Objects.{Duration}
use directory_rbac_operator.Ldapclient.Library.{Library, Config, SearchRequest, SearchResult}
use directory_rbac_operator.Ldapclient.Client.{
  wait_turn, apply_deadline, group_entry, on_group, lookup_group, on_user, lookup_username,
  lookup_members, on_members, resolve_members, members_on, on_start_tls, secure, dial, on_bind,
  log_in, connect_and_bind, ping, get_group_members,
}

-- A view of the world that nothing changes of what is done on a connection that is open and bound.
pub record QueriesKeep {W E C T L N V : Type 0} (lib : Library W E C T L N) (view : W → V)
    : Type 0 where
  pub set_timeout-keeps : (c : C) (d : Duration) → KeepsEffect view (lib.set_timeout c d)
  pub search-Keeps : (c : C) (r : SearchRequest) → Keeps view (lib.search c r)
  pub search_with_paging-Keeps :
      (c : C) (r : SearchRequest) (n : ℕ) → Keeps view (lib.search_with_paging c r n)
  pub time_left-keeps : (w : W) → view (lib.time_left w).1 ≡ view w

-- A view of the world that no call of the library changes but those that open, close and bind.
pub record CallsKeep {W E C T L N V : Type 0} (lib : Library W E C T L N) (view : W → V)
    : Type 0 where
  pub start_tls-Keeps : (c : C) (t : T) → Keeps view (lib.start_tls c t)
  pub wait-Keeps : (limiter : L) → Keeps view (lib.wait limiter)
  pub queries : QueriesKeep lib view

module _ {W E C T L N V : Type 0} (lib : Library W E C T L N) (cfg : Config T L) (view : W → V)
    (set_timeout-keeps : (c : C) (d : Duration) → KeepsEffect view (lib.set_timeout c d)) where
  pub apply_deadline-keeps :
      (c : C) (left : Option Duration) → KeepsEffect view (apply_deadline lib cfg c left)
  unfolding apply_deadline
  apply_deadline-keeps c none w = refl
  apply_deadline-keeps c (some left) w = set_timeout-keeps c left w

-- What is done with the answers of searches.
module _ {W E C T L N V : Type 0} (lib : Library W E C T L N) (cfg : Config T L)
    (view : W → V) where
  group_entry-Keeps : (dn : String) (l : List N) → Keeps view (group_entry lib cfg dn l)
  unfolding group_entry
  group_entry-Keeps dn [] = fail-Keeps _
  group_entry-Keeps dn (n ∷ l) = pure-Keeps n

  pub on_group-Keeps :
      (dn : String) (r : Result (GoError E) (SearchResult N)) → Keeps view (on_group lib cfg dn r)
  unfolding on_group fail
  on_group-Keeps dn (ok r) = group_entry-Keeps dn r.entries
  on_group-Keeps dn (err e) = elim (Bool-cases (foreign_test lib.is_no_such_object e)) [
    | inl p ↦ rw p (fail-Keeps _)
    | inr p ↦ elim (Bool-cases (foreign_test lib.is_referral e)) [
      | inl q ↦ rw (p, q) (fail-Keeps _)
      | inr q ↦ rw (p, q) (fail-Keeps _)
    ]
  ]

  pub on_user-Keeps : (r : Result (GoError E) (SearchResult N)) → Keeps view (on_user lib cfg r)
  unfolding on_user
  on_user-Keeps (ok r) = pure-Keeps _
  on_user-Keeps (err e) = elim (Bool-cases (foreign_test lib.is_no_such_object e)) [
    | inl p ↦ rw p (pure-Keeps "")
    | inr p ↦ elim (Bool-cases (foreign_test lib.is_referral e)) [
      | inl q ↦ rw (p, q) (pure-Keeps "")
      | inr q ↦ rw (p, q) (fail-Keeps e)
    ]
  ]

module _ {W E C T L N V : Type 0} (lib : Library W E C T L N) (cfg : Config T L) (view : W → V)
    (queries : QueriesKeep lib view) where
  open queries use {search-Keeps, search_with_paging-Keeps}

  lookup_group-Keeps : (c : C) (dn : String) → Keeps view (lookup_group lib cfg c dn)
  unfolding lookup_group
  lookup_group-Keeps c dn =
      let answer-Keeps = on_group-Keeps lib cfg view in
      search (keeps_rules, search-Keeps, answer-Keeps) depth 9

  lookup_username-Keeps : (c : C) (dn : String) → Keeps view (lookup_username lib cfg c dn)
  unfolding lookup_username
  lookup_username-Keeps c dn =
      let answer-Keeps = on_user-Keeps lib cfg view in
      search (keeps_rules, search-Keeps, answer-Keeps) depth 9

  lookup_members-Keeps : (c : C) (dns : List String) → Keeps view (lookup_members lib cfg c dns)
  unfolding lookup_members
  lookup_members-Keeps c [] = pure-Keeps []
  lookup_members-Keeps c (dn ∷ dns) =
      >>=-Keeps _ _ (wrapping-Keeps _ _ _ (lookup_username-Keeps c dn))
        (λ name. >>=-Keeps _ _ (lookup_members-Keeps c dns) (λ names. pure-Keeps _))

  on_members-Keeps : (c : C) (n : N) (l : List N) → Keeps view (on_members lib cfg c n l)
  unfolding on_members
  on_members-Keeps c n (e ∷ l) = pure-Keeps _
  on_members-Keeps c n [] = lookup_members-Keeps c _

  resolve_members-Keeps :
      (c : C) (dn : String) (n : N) → Keeps view (resolve_members lib cfg c dn n)
  unfolding resolve_members
  resolve_members-Keeps c dn n =
      search (keeps_rules, search_with_paging-Keeps, on_members-Keeps) depth 9

  pub members_on-Keeps :
      (s : Sorter String) (c : C) (dn : String) → Keeps view (members_on lib cfg s c dn)
  unfolding members_on
  members_on-Keeps s c dn = search (keeps_rules, lookup_group-Keeps, resolve_members-Keeps) depth 9

module _ {W E C T L N V : Type 0} (lib : Library W E C T L N) (cfg : Config T L) (view : W → V)
    (wait-Keeps : (limiter : L) → Keeps view (lib.wait limiter)) where
  pub wait_turn-Keeps : (limiter : Option L) → Keeps view (wait_turn lib cfg limiter)
  unfolding wait_turn
  wait_turn-Keeps none = pure-Keeps tt
  wait_turn-Keeps (some limiter) = search (keeps_rules, wait-Keeps) depth 9

-- A view of the world that no call of the library changes but Bind.
pub record DialCallsKeep {W E C T L N V : Type 0} (lib : Library W E C T L N) (view : W → V)
    : Type 0 where
  pub dial_url-Keeps : (url : String) (t : Option T) → Keeps view (lib.dial_url url t)
  pub close-keeps : (c : C) → KeepsEffect view (lib.close c)
  pub calls : CallsKeep lib view

module _ {W E C T L N V : Type 0} (lib : Library W E C T L N) (cfg : Config T L) (view : W → V)
    (close-keeps : (c : C) → KeepsEffect view (lib.close c)) where
  on_start_tls-Keeps :
      (c : C) (r : Result (GoError E) (Unit {0})) → Keeps view (on_start_tls lib cfg c r)
  unfolding on_start_tls
  on_start_tls-Keeps c (ok _) = pure-Keeps c
  on_start_tls-Keeps c (err e) = search (keeps_rules, close-keeps) depth 9

  pub secure-Keeps :
      ((c : C) (t : T) → Keeps view (lib.start_tls c t))
      → (c : C) (is_ldaps : Bool) → Keeps view (secure lib cfg c is_ldaps)
  unfolding secure
  secure-Keeps start_tls-Keeps c is_ldaps =
      elim (Bool-cases (not is_ldaps && not cfg.insecure_skip_tls)) [
        | inl p ↦ rw p (search (keeps_rules, start_tls-Keeps, on_start_tls-Keeps) depth 9)
        | inr p ↦ rw p (pure-Keeps c)
      ]

  pub on_bind-Keeps : (c : C) (r : Result (GoError E) (Unit {0})) → Keeps view (on_bind lib cfg c r)
  unfolding on_bind
  on_bind-Keeps c (ok _) = pure-Keeps c
  on_bind-Keeps c (err e) = search (keeps_rules, close-keeps) depth 9

module _ {W E C T L N V : Type 0} (lib : Library W E C T L N) (cfg : Config T L) (view : W → V)
    (dialling : DialCallsKeep lib view) where
  open dialling use {dial_url-Keeps, close-keeps, calls}
  open calls use {start_tls-Keeps}

  upgraded-Keeps : (c : C) (is_ldaps : Bool) → Keeps view (secure lib cfg c is_ldaps)
  upgraded-Keeps = secure-Keeps lib cfg view close-keeps start_tls-Keeps

  pub dial-Keeps : Keeps view (dial lib cfg)
  unfolding dial
  dial-Keeps = search (keeps_rules, dial_url-Keeps, upgraded-Keeps) depth 9

-- A view that no call changes at all, such as what the cluster stores.
pub record AllCallsKeep {W E C T L N V : Type 0} (lib : Library W E C T L N) (view : W → V)
    : Type 0 where
  pub dialling : DialCallsKeep lib view
  pub bind-Keeps : (c : C) (dn password : String) → Keeps view (lib.bind c dn password)

module _ {W E C T L N V : Type 0} (lib : Library W E C T L N) (cfg : Config T L) (view : W → V)
    (all : AllCallsKeep lib view) where
  open all use {dialling, bind-Keeps}
  open dialling use {close-keeps, calls}
  open calls use {queries}
  open queries use {time_left-keeps}

  dialled-Keeps : Keeps view (dial lib cfg)
  dialled-Keeps = dial-Keeps lib cfg view dialling

  bound-Keeps : (c : C) (r : Result (GoError E) (Unit {0})) → Keeps view (on_bind lib cfg c r)
  bound-Keeps = on_bind-Keeps lib cfg view close-keeps

  deadline-keeps :
      (c : C) (left : Option Duration) → KeepsEffect view (apply_deadline lib cfg c left)
  deadline-keeps = apply_deadline-keeps lib cfg view queries.set_timeout-keeps

  log_in-Keeps : (c : C) → Keeps view (log_in lib cfg c)
  unfolding log_in
  log_in-Keeps c =
      search (keeps_rules, time_left-keeps, deadline-keeps, bind-Keeps, bound-Keeps) depth 9

  turn-Keeps : (limiter : Option L) → Keeps view (wait_turn lib cfg limiter)
  turn-Keeps = wait_turn-Keeps lib cfg view calls.wait-Keeps

  connect_and_bind-Keeps : Keeps view (connect_and_bind lib cfg)
  unfolding connect_and_bind
  connect_and_bind-Keeps = search (keeps_rules, turn-Keeps, dialled-Keeps, log_in-Keeps) depth 9

  pub get_group_members-Keeps :
      (s : Sorter String) (dn : String) → Keeps view (get_group_members lib cfg s dn)
  unfolding get_group_members
  get_group_members-Keeps s dn =
      >>=-Keeps _ _ connect_and_bind-Keeps
        (λ c. deferring-Keeps _ _ (close-keeps c) (members_on-Keeps lib cfg view queries s c dn))

  pub ping-Keeps : Keeps view (ping lib cfg)
  unfolding ping
  ping-Keeps = search (keeps_rules, connect_and_bind-Keeps, close-keeps) depth 9
