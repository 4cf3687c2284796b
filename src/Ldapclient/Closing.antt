-- ===== src/Ldapclient/Closing.antt =====
-- internal/ldapclient/client.go: the connections that a call opens, and that it has closed when it ends.
use directory_rbac_operator.Base.{
  String, ◌≡◌, refl, sym, subst, ◌∙◌, Bool, not, ◌&&◌, Option, List, ◌∷◌, inl, inr, Bool-cases,
}
use directory_rbac_operator.Go.Errors.{GoError}
use directory_rbac_operator.Go.Action.{
  Result, ok, err, Action, pure, fail, reading, try, deferring, perform, and_then, ◌>>=◌, ◌>>◌,
  call, wrapping, map_err, with_error,
}
use directory_rbac_operator.Go.Action.Keeps.{Keeps}
use directory_rbac_operator.Go.Sort.{Sorter}
use directory_rbac_operator.Ldapclient.Library.{Library, Config}
use directory_rbac_operator.Ldapclient.Frame.{
  CallsKeep, apply_deadline-keeps, wait_turn-Keeps, members_on-Keeps,
}
use directory_rbac_operator.Ldapclient.Client.{
  on_start_tls, secure, dial, on_bind, log_in, connect_and_bind, ping, get_group_members,
}

-- The connections that are open after a call that hands one out.
unfoldable pub with_handed : {X C : Type 0} → Result X C → List C → List C
with_handed (ok c) l = c ∷ l
with_handed (err e) l = l

-- What each call of the library does to the open connections, the latest first.
pub record Connections {W E C T L N : Type 0} (lib : Library W E C T L N) (open_conns : W → List C)
    : Type 0 where
  pub dial_url-opens :
      (url : String) (t : Option T) (w : W)
      → open_conns (lib.dial_url url t w).1 ≡ with_handed (lib.dial_url url t w).0 (open_conns w)
  pub close-closes :
      (c : C) (l : List C) (w : W) → open_conns w ≡ c ∷ l → open_conns (lib.close c w) ≡ l
  pub bind-Keeps : (c : C) (dn password : String) → Keeps open_conns (lib.bind c dn password)
  pub calls : CallsKeep lib open_conns

module _ {W X C : Type 0} (open_conns : W → List C) where
  -- The call opens the connection that it hands out, and no other.
  abbrev pub Opens : Action W X C → Type 0
  Opens m = (w : W) → open_conns (m w).1 ≡ with_handed (m w).0 (open_conns w)

  -- On the latest connection: the call hands it on, or closes it where it fails.
  abbrev pub HandsOn : C → Action W X C → Type 0
  HandsOn c m =
      (w : W) (l : List C) → open_conns w ≡ c ∷ l → open_conns (m w).1 ≡ with_handed (m w).0 l

module _ {W E C T L N : Type 0} (lib : Library W E C T L N) (cfg : Config T L)
    (open_conns : W → List C) (laws : Connections lib open_conns) where
  open laws use {dial_url-opens, close-closes, bind-Keeps, calls}
  open calls use {start_tls-Keeps, queries}
  open queries use {time_left-keeps}

  -- A call that opens, then one that hands on.
  and_then-Opens :
      {X : Type 0} (r : Result X C) (f : C → Action W X C) (w : W) (l : List C)
      → open_conns w ≡ with_handed r l
      → ((c : C) → HandsOn open_conns c (f c))
      → open_conns (and_then r f w).1 ≡ with_handed (and_then r f w).0 l
  unfolding and_then with_handed
  and_then-Opens (ok c) f w l h hands = hands c w l h
  and_then-Opens (err e) f w l h hands = h

  >>=-Opens :
      {X : Type 0} (m : Action W X C) (f : C → Action W X C)
      → Opens open_conns m
      → ((c : C) → HandsOn open_conns c (f c))
      → Opens open_conns (m >>= f)
  unfolding ◌>>=◌
  >>=-Opens m f opens hands w = and_then-Opens (m w).0 f (m w).1 (open_conns w) (opens w) hands

  with_error-handed :
      {X Y : Type 0} (f : X → Y) (r : Result X C) (l : List C)
      → with_handed (with_error f r) l ≡ with_handed r l
  unfolding with_error with_handed
  with_error-handed f (ok c) l = refl
  with_error-handed f (err e) l = refl

  map_err-Opens :
      {X Y : Type 0} (f : X → Y) (m : Action W X C)
      → Opens open_conns m
      → Opens open_conns (map_err f m)
  unfolding map_err
  map_err-Opens f m opens w = opens w ∙ sym (with_error-handed f (m w).0 (open_conns w))

  on_start_tls-HandsOn :
      (c : C) (r : Result (GoError E) (Unit {0})) → HandsOn open_conns c (on_start_tls lib cfg c r)
  unfolding on_start_tls ◌>>◌ ◌>>=◌ perform pure fail with_handed
  on_start_tls-HandsOn c (ok _) w l h = h
  on_start_tls-HandsOn c (err e) w l h = close-closes c l w h

  secure-HandsOn : (c : C) (is_ldaps : Bool) → HandsOn open_conns c (secure lib cfg c is_ldaps)
  unfolding secure ◌>>=◌ try call map_err pure with_handed
  secure-HandsOn c is_ldaps w l h = elim (Bool-cases (not is_ldaps && not cfg.insecure_skip_tls)) [
    | inl p ↦ rw p (on_start_tls-HandsOn c _ _ l ((start_tls-Keeps c _).keeps w ∙ h))
    | inr p ↦ rw p h
  ]

  dial-Opens : Opens open_conns (dial lib cfg)
  unfolding dial call
  dial-Opens = >>=-Opens _ _ (map_err-Opens _ _ (dial_url-opens _ _)) (λ c. secure-HandsOn c _)

  on_bind-HandsOn :
      (c : C) (r : Result (GoError E) (Unit {0})) → HandsOn open_conns c (on_bind lib cfg c r)
  unfolding on_bind ◌>>◌ ◌>>=◌ perform pure fail with_handed
  on_bind-HandsOn c (ok _) w l h = h
  on_bind-HandsOn c (err e) w l h = close-closes c l w h

  log_in-HandsOn : (c : C) → HandsOn open_conns c (log_in lib cfg c)
  unfolding log_in ◌>>◌ ◌>>=◌ perform reading try call map_err
  log_in-HandsOn c w l h = on_bind-HandsOn c _ _ l (
      (bind-Keeps c _ _).keeps _
      ∙ apply_deadline-keeps lib cfg open_conns queries.set_timeout-keeps c _ _
      ∙ time_left-keeps w
      ∙ h)

  -- After a call that leaves the connections alone.
  and_then_unit-Opens :
      {X : Type 0} (r : Result X (Unit {0})) (m : Action W X C) (w : W)
      → Opens open_conns m
      → open_conns (and_then r (λ _. m) w).1 ≡ with_handed (and_then r (λ _. m) w).0 (open_conns w)
  unfolding and_then with_handed
  and_then_unit-Opens (ok _) m w opens = opens w
  and_then_unit-Opens (err e) m w opens = refl

  >>-Opens :
      {X : Type 0} (k : Action W X (Unit {0})) (m : Action W X C)
      → Keeps open_conns k
      → Opens open_conns m
      → Opens open_conns (k >> m)
  unfolding ◌>>◌ ◌>>=◌
  >>-Opens k m keeps opens w =
      subst (λ l. open_conns ((k >> m) w).1 ≡ with_handed ((k >> m) w).0 l) (keeps.keeps w)
        (and_then_unit-Opens (k w).0 m (k w).1 opens)

  pub connect_and_bind-Opens : Opens open_conns (connect_and_bind lib cfg)
  unfolding connect_and_bind wrapping
  connect_and_bind-Opens =
      >>-Opens _ _ (wait_turn-Keeps lib cfg open_conns calls.wait-Keeps cfg.limiter)
        (>>=-Opens _ _ (map_err-Opens _ _ dial-Opens) log_in-HandsOn)

  -- What uses the latest connection, and closes it.
  and_then-closed :
      {X A : Type 0} (r : Result X C) (f : C → Action W X A) (w : W) (l : List C)
      → open_conns w ≡ with_handed r l
      → ((c : C) (w : W) → open_conns w ≡ c ∷ l → open_conns (f c w).1 ≡ l)
      → open_conns (and_then r f w).1 ≡ l
  unfolding and_then with_handed
  and_then-closed (ok c) f w l h closes = closes c w h
  and_then-closed (err e) f w l h closes = h

  -- However GetGroupMembers ends, the connections that are open afterwards are those that
  -- were open before: one that it opened is closed once, on every path.
  pub get_group_members-open_conns :
      (s : Sorter String) (dn : String) (w : W)
      → open_conns (get_group_members lib cfg s dn w).1 ≡ open_conns w
  unfolding get_group_members ◌>>=◌ deferring
  get_group_members-open_conns s dn w =
      and_then-closed _ _ _ (open_conns w) (connect_and_bind-Opens w) (λ c w' h.
        close-closes c (open_conns w) _
          ((members_on-Keeps lib cfg open_conns queries s c dn).keeps w' ∙ h))

  -- However Ping ends, the connections that are open afterwards are those that were open before.
  pub ping-open_conns : (w : W) → open_conns (ping lib cfg w).1 ≡ open_conns w
  unfolding ping ◌>>=◌ ◌>>◌ perform pure
  ping-open_conns w =
      and_then-closed _ _ _ (open_conns w) (connect_and_bind-Opens w)
        (λ c w' h. close-closes c (open_conns w) w' h)
