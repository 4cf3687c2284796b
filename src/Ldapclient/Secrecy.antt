-- ===== src/Ldapclient/Secrecy.antt =====
-- internal/ldapclient/client.go: the bind password never goes out on a connection without TLS, unless the
-- configuration allows it.
use directory_rbac_operator.Base.{
  arith, String, ◌≡◌, refl, sym, subst, ◌∙◌, starts_with, Bool, true, false, not, ◌&&◌, Option,
  none, some, inl, inr, Bool-cases, if◌then◌else◌,
}
use directory_rbac_operator.Go.Errors.{GoError, foreign}
use directory_rbac_operator.Go.Action.{
  Result, ok, err, ok≢err, ok-injective, Action, pure, fail, reading, try, perform, and_then, ◌>>=◌,
  ◌>>◌, call, wrapping, map_err, with_error-ok,
}
use directory_rbac_operator.Go.Action.Keeps.{
  Keeps, KeepsEffect, pure-Keeps, perform-Keeps, >>-Keeps, >>=-Keeps, deferring-Keeps,
  wrapping-Keeps,
}
use directory_rbac_operator.Go.Sort.{Sorter}
use directory_rbac_operator.Kube.Objects.{Duration}
use directory_rbac_operator.Ldapclient.Library.{Library, Config}
use directory_rbac_operator.Ldapclient.Frame.{
  CallsKeep, DialCallsKeep, dial-Keeps, on_bind-Keeps, apply_deadline-keeps, wait_turn-Keeps,
  members_on-Keeps,
}
use directory_rbac_operator.Ldapclient.Client.{
  tls_config, on_start_tls, secure, dial, apply_deadline, log_in, connect_and_bind,
  get_group_members, ping,
}

-- What the library does about TLS. `IsTls c w` says that what is sent on `c` is encrypted, and `leaked w`
-- is what was sent in clear so far, which only a Bind without TLS adds to in this client.
pub record Encryption {W E C T L N V : Type 0} (lib : Library W E C T L N) (IsTls : C → W → Type 0)
    (leaked : W → V) : Type 0 where
  -- DialURL of an ldaps URL connects with TLS; StartTLS upgrades the connection or fails
  pub dial_url-IsTls :
      (url : String) (t : T) (w : W) (c : C)
      → starts_with url "ldaps://" ≡ true
      → (lib.dial_url url (some t) w).0 ≡ ok c
      → IsTls c (lib.dial_url url (some t) w).1
  pub start_tls-IsTls :
      (c : C) (t : T) (w : W) → (lib.start_tls c t w).0 ≡ ok tt → IsTls c (lib.start_tls c t w).1
  pub set_timeout-IsTls :
      (c : C) (d : Duration) (w : W) → IsTls c w → IsTls c (lib.set_timeout c d w)
  pub time_left-IsTls : (c : C) (w : W) → IsTls c w → IsTls c (lib.time_left w).1
  pub bind-secret :
      (c : C) (dn password : String) (w : W)
      → IsTls c w
      → leaked (lib.bind c dn password w).1 ≡ leaked w
  pub dial_url-Keeps : (url : String) (t : Option T) → Keeps leaked (lib.dial_url url t)
  pub close-keeps : (c : C) → KeepsEffect leaked (lib.close c)
  pub calls : CallsKeep lib leaked

module _ {W E C T L N V : Type 0} (lib : Library W E C T L N) (cfg : Config T L)
    (IsTls : C → W → Type 0) (leaked : W → V) (laws : Encryption lib IsTls leaked)
    (strict : cfg.insecure_skip_tls ≡ false) where
  open laws use {
    dial_url-IsTls, start_tls-IsTls, set_timeout-IsTls, time_left-IsTls, bind-secret,
    dial_url-Keeps, close-keeps, calls,
  }
  open calls use {queries}
  open queries use {time_left-keeps}

  dialling : DialCallsKeep lib leaked
  dialling = record { dial_url-Keeps = dial_url-Keeps; close-keeps = close-keeps; calls = calls }

  on_start_tls-IsTls :
      (c c' : C) (r : Result (GoError E) (Unit {0})) (w : W)
      → (r ≡ ok tt → IsTls c w)
      → (on_start_tls lib cfg c r w).0 ≡ ok c'
      → IsTls c' (on_start_tls lib cfg c r w).1
  unfolding on_start_tls pure fail ◌>>◌ ◌>>=◌ perform
  on_start_tls-IsTls c c' (ok tt) w h q = subst (λ x. IsTls x w) (ok-injective q) (h refl)
  on_start_tls-IsTls c c' (err e) w h q = absurd (ok≢err (sym q))

  secure-IsTls :
      (c c' : C) (is_ldaps : Bool) (w : W)
      → (is_ldaps ≡ true → IsTls c w)
      → (secure lib cfg c is_ldaps w).0 ≡ ok c'
      → IsTls c' (secure lib cfg c is_ldaps w).1
  unfolding secure pure ◌>>=◌ try call map_err
  secure-IsTls c c' is_ldaps w h = elim (Bool-cases (not is_ldaps && not cfg.insecure_skip_tls)) [
    | inl p ↦
        rw p (on_start_tls-IsTls c c' _ _ (λ q. start_tls-IsTls c _ w (with_error-ok foreign _ q)))
    | inr p ↦ rw p (λ q. subst (λ x. IsTls x w) (ok-injective q) (h (ground (arith, p, strict))))
  ]

  and_then-IsTls :
      {X : Type 0} (r : Result X C) (f : C → Action W X C) (w : W) (c : C)
      → ((c' : C) → r ≡ ok c' → (f c' w).0 ≡ ok c → IsTls c (f c' w).1)
      → (and_then r f w).0 ≡ ok c
      → IsTls c (and_then r f w).1
  unfolding and_then
  and_then-IsTls (ok c') f w c h q = h c' refl q
  and_then-IsTls (err e) f w c h q = absurd (ok≢err (sym q))

  >>=-IsTls :
      {X : Type 0} (m : Action W X C) (f : C → Action W X C) (w : W) (c : C)
      → ((c' : C) → (m w).0 ≡ ok c' → (f c' (m w).1).0 ≡ ok c → IsTls c (f c' (m w).1).1)
      → ((m >>= f) w).0 ≡ ok c
      → IsTls c ((m >>= f) w).1
  unfolding ◌>>=◌
  >>=-IsTls m f w c h = and_then-IsTls (m w).0 f (m w).1 c h

  dial_url-ldaps :
      (is_ldaps : Bool) (t : T) (w : W) (c : C)
      → starts_with cfg.url "ldaps://" ≡ is_ldaps
      → is_ldaps ≡ true
      → (lib.dial_url cfg.url (if is_ldaps then some t else none) w).0 ≡ ok c
      → IsTls c (lib.dial_url cfg.url (if is_ldaps then some t else none) w).1
  dial_url-ldaps true t w c e h q = dial_url-IsTls cfg.url t w c e q
  dial_url-ldaps false t w c e h q = cc

  dial_url-opened :
      (w : W) (c : C)
      → let is_ldaps = starts_with cfg.url "ldaps://" in
        let m =
          call (lib.dial_url cfg.url (if is_ldaps then some (tls_config lib cfg) else none)) in
        is_ldaps ≡ true → (m w).0 ≡ ok c → IsTls c (m w).1
  unfolding call map_err
  dial_url-opened w c h p =
      dial_url-ldaps _ (tls_config lib cfg) w c refl h (with_error-ok foreign _ p)

  dial-IsTls : (w : W) (c : C) → (dial lib cfg w).0 ≡ ok c → IsTls c (dial lib cfg w).1
  unfolding dial
  dial-IsTls w c = >>=-IsTls _ _ w c (λ c' p. secure-IsTls c' c _ _ (λ h. dial_url-opened w c' h p))

  apply_deadline-IsTls :
      (c : C) (left : Option Duration) (w : W)
      → IsTls c w
      → IsTls c (apply_deadline lib cfg c left w)
  unfolding apply_deadline
  apply_deadline-IsTls c none w h = h
  apply_deadline-IsTls c (some left) w h = set_timeout-IsTls c left w h

  log_in-leaked : (c : C) (w : W) → IsTls c w → leaked (log_in lib cfg c w).1 ≡ leaked w
  unfolding log_in ◌>>◌ ◌>>=◌ perform reading try call map_err
  log_in-leaked c w h =
      (on_bind-Keeps lib cfg leaked close-keeps c _).keeps _
      ∙ bind-secret c _ _ _ (apply_deadline-IsTls c _ _ (time_left-IsTls c w h))
      ∙ apply_deadline-keeps lib cfg leaked queries.set_timeout-keeps c _ _
      ∙ time_left-keeps w

  and_then-leaked :
      {X A : Type 0} (r : Result X C) (f : C → Action W X A) (w : W)
      → ((c : C) → r ≡ ok c → leaked (f c w).1 ≡ leaked w)
      → leaked (and_then r f w).1 ≡ leaked w
  unfolding and_then
  and_then-leaked (ok c) f w h = h c refl
  and_then-leaked (err e) f w h = refl

  >>=-leaked :
      {X A : Type 0} (m : Action W X C) (f : C → Action W X A)
      → Keeps leaked m
      → ((w : W) (c : C) → (m w).0 ≡ ok c → leaked (f c (m w).1).1 ≡ leaked (m w).1)
      → Keeps leaked (m >>= f)
  unfolding ◌>>=◌
  >>=-leaked m f keeps h = record {
    keeps = λ w. and_then-leaked (m w).0 f (m w).1 (h w) ∙ keeps.keeps w;
  }

  wrapped_dial-IsTls :
      (w : W) (c : C)
      → let m = wrapping "ldapclient: dial: " "" (dial lib cfg) in (m w).0 ≡ ok c → IsTls c (m w).1
  unfolding wrapping map_err
  wrapped_dial-IsTls w c q = dial-IsTls w c (with_error-ok _ _ q)

  dial_and_log_in-Keeps :
      Keeps leaked (wrapping "ldapclient: dial: " "" (dial lib cfg) >>= log_in lib cfg)
  dial_and_log_in-Keeps =
      >>=-leaked _ _ (wrapping-Keeps _ _ _ (dial-Keeps lib cfg leaked dialling))
        (λ w c q. log_in-leaked c _ (wrapped_dial-IsTls w c q))

  connect_and_bind-Keeps : Keeps leaked (connect_and_bind lib cfg)
  unfolding connect_and_bind
  connect_and_bind-Keeps =
      >>-Keeps _ _ (wait_turn-Keeps lib cfg leaked calls.wait-Keeps cfg.limiter)
        dial_and_log_in-Keeps

  -- Unless InsecureSkipTLS is set, GetGroupMembers sends nothing in clear that a Bind would send: it binds
  -- only on a connection that is TLS from the dial or was upgraded by a StartTLS that succeeded.
  pub get_group_members-leaked :
      (s : Sorter String) (dn : String) (w : W)
      → leaked (get_group_members lib cfg s dn w).1 ≡ leaked w
  unfolding get_group_members
  get_group_members-leaked s dn w =
      Keeps.keeps
        (>>=-Keeps _ _ connect_and_bind-Keeps (λ c.
          deferring-Keeps _ _ (close-keeps c) (members_on-Keeps lib cfg leaked queries s c dn)))
        w

  -- Unless InsecureSkipTLS is set, Ping sends nothing in clear that a Bind would send.
  pub ping-leaked : (w : W) → leaked (ping lib cfg w).1 ≡ leaked w
  unfolding ping
  ping-leaked w =
      Keeps.keeps
        (>>=-Keeps _ _ connect_and_bind-Keeps
          (λ c. >>-Keeps _ _ (perform-Keeps _ (close-keeps c)) (pure-Keeps tt)))
        w
