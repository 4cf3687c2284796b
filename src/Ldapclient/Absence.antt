-- ===== src/Ldapclient/Absence.antt =====
-- internal/ldapclient/client.go: when a group is reported as not found, which the reconcilers treat
-- unlike every other error.
use directory_rbac_operator.Base.{
  arith, String, ◌≡◌, ◌↔◌, refl, sym, ap, ◌∙◌, Bool, true, false, not, ◌&&◌, Option, none, some,
  List, [], ◌∷◌, inl, inr, Bool-cases,
}
use directory_rbac_operator.Go.Errors.{GoError, foreign, is_group_not_found, foreign_test}
use directory_rbac_operator.Go.Action.{
  Result, ok, err, ok≢err, Result-cases, Action, pure, fail, try, deferring, and_then, ◌>>=◌,
  with_error, map_err, call,
}
use directory_rbac_operator.Go.Sort.{Sorter}
use directory_rbac_operator.Ldapclient.Library.{Library, Config, SearchResult}
use directory_rbac_operator.Ldapclient.Client.{
  on_start_tls, secure, dial, wait_turn, on_bind, log_in, connect_and_bind, group_request, no_group,
  group_entry, on_group, lookup_group, on_user, lookup_username, lookup_members, on_members,
  resolve_members, members_on, get_group_members,
}
use directory_rbac_operator.Ldapclient.Unreported.{
  reports_absence, Unreported, wrapping-Unreported, call-Unreported, >>=-Unreported, >>-Unreported,
  try-call-Unreported, pure-Unreported, fail-Unreported, perform-Unreported, reading-Unreported,
}

unfoldable is_empty : {A : Type 0} → List A → Bool
is_empty [] = true
is_empty (_ ∷ _) = false

-- The directory's answer to the search of the group itself says that there is none.
unfoldable pub is_absent : {E N : Type 0} → (E → Bool) → Result E (SearchResult N) → Bool
unfolding is_empty
is_absent no_such_object (err e) = no_such_object e
is_absent no_such_object (ok r) = is_empty r.entries

module _ {W E C T L N : Type 0} (lib : Library W E C T L N) (cfg : Config T L) where
  on_start_tls-Unreported :
      (c : C) (r : Result (GoError E) (Unit {0}))
      → reports_absence r ≡ false
      → Unreported (on_start_tls lib cfg c r)
  unfolding on_start_tls reports_absence is_group_not_found
  on_start_tls-Unreported c (ok _) h = pure-Unreported c
  on_start_tls-Unreported c (err e) h =
      >>-Unreported _ _ (perform-Unreported _) (fail-Unreported _ h)

  secure-Unreported : (c : C) (is_ldaps : Bool) → Unreported (secure lib cfg c is_ldaps)
  unfolding secure
  secure-Unreported c is_ldaps = elim (Bool-cases (not is_ldaps && not cfg.insecure_skip_tls)) [
    | inl p ↦ rw p (try-call-Unreported _ _ (on_start_tls-Unreported c))
    | inr p ↦ rw p (pure-Unreported c)
  ]

  dial-Unreported : Unreported (dial lib cfg)
  unfolding dial
  dial-Unreported = >>=-Unreported _ _ (call-Unreported _) (λ c. secure-Unreported c _)

  wait_turn-Unreported : (limiter : Option L) → Unreported (wait_turn lib cfg limiter)
  unfolding wait_turn
  wait_turn-Unreported none = pure-Unreported tt
  wait_turn-Unreported (some limiter) = wrapping-Unreported _ _ _ (call-Unreported _)

  on_bind-Unreported :
      (c : C) (r : Result (GoError E) (Unit {0}))
      → reports_absence r ≡ false
      → Unreported (on_bind lib cfg c r)
  unfolding on_bind reports_absence is_group_not_found
  on_bind-Unreported c (ok _) h = pure-Unreported c
  on_bind-Unreported c (err e) h = >>-Unreported _ _ (perform-Unreported _) (fail-Unreported _ h)

  log_in-Unreported : (c : C) → Unreported (log_in lib cfg c)
  unfolding log_in
  log_in-Unreported c = >>=-Unreported _ _ (reading-Unreported _) (λ left.
      >>-Unreported _ _ (perform-Unreported _) (try-call-Unreported _ _ (on_bind-Unreported c)))

  connect_and_bind-Unreported : Unreported (connect_and_bind lib cfg)
  unfolding connect_and_bind
  connect_and_bind-Unreported =
      >>-Unreported _ _ (wait_turn-Unreported cfg.limiter)
        (>>=-Unreported _ _ (wrapping-Unreported _ _ _ dial-Unreported) log_in-Unreported)

  on_user-Unreported :
      (r : Result (GoError E) (SearchResult N))
      → reports_absence r ≡ false
      → Unreported (on_user lib cfg r)
  unfolding on_user reports_absence
  on_user-Unreported (ok r) h = pure-Unreported _
  on_user-Unreported (err e) h = elim (Bool-cases (foreign_test lib.is_no_such_object e)) [
    | inl p ↦ rw p (pure-Unreported "")
    | inr p ↦ elim (Bool-cases (foreign_test lib.is_referral e)) [
      | inl q ↦ rw (p, q) (pure-Unreported "")
      | inr q ↦ rw (p, q) (fail-Unreported e h)
    ]
  ]

  lookup_members-Unreported :
      (c : C) (dns : List String) → Unreported (lookup_members lib cfg c dns)
  unfolding lookup_members lookup_username
  lookup_members-Unreported c [] = pure-Unreported []
  lookup_members-Unreported c (dn ∷ dns) =
      >>=-Unreported _ _ (wrapping-Unreported _ _ _ (try-call-Unreported _ _ on_user-Unreported))
        (λ name. >>=-Unreported _ _ (lookup_members-Unreported c dns) (λ names. pure-Unreported _))

  on_members-Unreported : (c : C) (n : N) (l : List N) → Unreported (on_members lib cfg c n l)
  unfolding on_members
  on_members-Unreported c n (e ∷ l) = pure-Unreported _
  on_members-Unreported c n [] = lookup_members-Unreported c _

  resolve_members-Unreported :
      (c : C) (dn : String) (n : N) → Unreported (resolve_members lib cfg c dn n)
  unfolding resolve_members
  resolve_members-Unreported c dn n =
      >>=-Unreported _ _ (wrapping-Unreported _ _ _ (call-Unreported _))
        (λ r. on_members-Unreported c n _)

  on_group-reports :
      (r : Result E (SearchResult N)) (dn : String) (w : W)
      → reports_absence (on_group lib cfg dn (with_error foreign r) w).0
        ≡ is_absent lib.is_no_such_object r
  unfolding with_error on_group is_absent foreign_test fail reports_absence is_group_not_found
      no_group group_entry pure
  on_group-reports (ok r) dn w = entries r.entries
    where
      entries : (l : List N) → reports_absence (group_entry lib cfg dn l w).0 ≡ is_empty l
      entries [] = refl
      entries (n ∷ l) = refl
  on_group-reports (err e) dn w = elim (Bool-cases (lib.is_no_such_object e)) [
    | inl p ↦ rw p refl
    | inr p ↦ elim (Bool-cases (lib.is_referral e)) [
      | inl q ↦ rw (p, q) refl
      | inr q ↦ rw (p, q) refl
    ]
  ]

  -- What follows a call does not change what it reports.
  and_then-reports :
      {A B : Type 0} (r : Result (GoError E) A) (f : A → Action W (GoError E) B) (w : W)
      → ((a : A) → Unreported (f a))
      → reports_absence (and_then r f w).0 ≡ reports_absence r
  unfolding and_then reports_absence
  and_then-reports (ok a) f w h = (h a).unreported w
  and_then-reports (err e) f w h = refl

  members_on-reports :
      (s : Sorter String) (c : C) (dn : String) (w : W)
      → reports_absence (members_on lib cfg s c dn w).0
        ≡ is_absent lib.is_no_such_object (lib.search c (group_request lib cfg dn) w).0
  unfolding members_on lookup_group ◌>>=◌ try call map_err
  members_on-reports s c dn w =
      and_then-reports _ _ _ (λ n.
        >>=-Unreported _ _ (wrapping-Unreported _ _ _ (resolve_members-Unreported c dn n))
          (λ names. pure-Unreported _))
      ∙ on_group-reports _ dn _

  connected-reports :
      (s : Sorter String) (dn : String) (w : W) (c : C)
      → (connect_and_bind lib cfg w).0 ≡ ok c
      → reports_absence (get_group_members lib cfg s dn w).0
        ≡ is_absent lib.is_no_such_object
            (lib.search c (group_request lib cfg dn) (connect_and_bind lib cfg w).1).0
  unfolding get_group_members ◌>>=◌ deferring and_then
  connected-reports s dn w c q = rw q (members_on-reports s c dn (connect_and_bind lib cfg w).1)

  unconnected-reports :
      (s : Sorter String) (dn : String) (w : W) (e : GoError E)
      → (connect_and_bind lib cfg w).0 ≡ err e
      → reports_absence (get_group_members lib cfg s dn w).0 ≡ false
  unfolding get_group_members ◌>>=◌ deferring and_then reports_absence
  unconnected-reports s dn w e q =
      rw q (ap reports_absence (sym q) ∙ connect_and_bind-Unreported.unreported w)

  -- GetGroupMembers reports ErrGroupNotFound exactly when the client was connected and bound and the
  -- directory answered the search of the group with NoSuchObject or without an entry. No other failure, of the
  -- connection, the bind, the member query or a member's lookup, is reported so.
  pub get_group_members-absence :
      (s : Sorter String) (dn : String) (w : W)
      → (reports_absence (get_group_members lib cfg s dn w).0 ≡ true) ↔ (
          (c : C) × ((connect_and_bind lib cfg w).0 ≡ ok c)
          × (is_absent lib.is_no_such_object
                (lib.search c (group_request lib cfg dn) (connect_and_bind lib cfg w).1).0
              ≡ true))
  get_group_members-absence s dn w = elim (Result-cases (connect_and_bind lib cfg w).0) [
    | inl (c, q) ↦ (
      λ h. (c, q, sym (connected-reports s dn w c q) ∙ h),
      λ (c', q', h). connected-reports s dn w c' q' ∙ h,
    )
    | inr (e, q) ↦ (
      λ h. ground (arith, h, unconnected-reports s dn w e q),
      λ (c', q', h). absurd (ok≢err (sym q' ∙ q)),
    )
  ]
