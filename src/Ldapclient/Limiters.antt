-- ===== src/Ldapclient/Limiters.antt =====
-- internal/ldapclient/ratelimit.go: one rate limiter for each provider, shared by whoever asks for it. Each
-- operation holds the mutex, so that operations of several goroutines happen one after another.
use mathlib.Core.Path.{ap₂}
use directory_rbac_operator.Base.{
  arith, ℕ, ℤ, pos, String, ◌≡◌, ◌≢◌, refl, ap, ◌∙◌, Bool, true, false, ◌==◌, eq_iff, Option, none,
  some, List, [], ◌∷◌, inl, inr, Bool-cases, Option-cases, nat_eq, if◌then◌else◌,
}

-- A Go map as its entries.
module _ {L : Type 0} where
  unfoldable pub lookup : String → List (String × L) → Option L
  lookup key [] = none
  lookup key ((k, limiter) ∷ entries) = if k == key then some limiter else lookup key entries

  unfoldable pub remove : String → List (String × L) → List (String × L)
  remove key [] = []
  remove key ((k, limiter) ∷ entries) =
      let rest = remove key entries in if k == key then rest else (k, limiter) ∷ rest

  unfoldable pub insert : String → L → List (String × L) → List (String × L)
  unfolding remove
  insert key limiter entries = (key, limiter) ∷ remove key entries

  lookup-remove :
      (key k : String) (entries : List (String × L))
      → key ≢ k
      → lookup key (remove k entries) ≡ lookup key entries
  unfolding lookup remove
  lookup-remove key k [] h = refl
  lookup-remove key k ((k', limiter) ∷ entries) h =
      ground (arith, lookup-remove key k entries h, eq_iff k' k, eq_iff k' key)

  lookup-remove_self :
      (key : String) (entries : List (String × L)) → lookup key (remove key entries) ≡ none
  unfolding lookup remove
  lookup-remove_self key [] = refl
  lookup-remove_self key ((k, limiter) ∷ entries) =
      ground (arith, lookup-remove_self key entries, eq_iff k key)

  lookup-insert_self :
      (key : String) (limiter : L) (entries : List (String × L))
      → lookup key (insert key limiter entries) ≡ some limiter
  unfolding lookup insert
  lookup-insert_self key limiter entries = ground (arith, eq_iff key key)

  lookup-insert :
      (key k : String) (limiter : L) (entries : List (String × L))
      → key ≢ k
      → lookup key (insert k limiter entries) ≡ lookup key entries
  unfolding lookup insert
  lookup-insert key k limiter entries h =
      ground (arith, lookup-remove key k entries h, eq_iff k key)

-- `R` is rate.Limit, `L` a *rate.Limiter. `new_limiter` is rate.NewLimiter, which makes a limiter.
pub record RateLibrary (W R L : Type 0) : Type 0 where
  pub of_ℕ : ℕ → R
  pub is_zero : R → Bool
  pub new_limiter : R → ℤ → W → L × W

-- A nil map is `none`.
pub record Limiters (R L : Type 0) : Type 0 where
  pub rate : R
  pub burst : ℤ
  pub limiters : Option (List (String × L))

abbrev pub default_burst : ℤ
default_burst = pos 10

module _ {W R L : Type 0} (lib : RateLibrary W R L) where
  abbrev pub default_rate : R
  default_rate = lib.of_ℕ 5

  unfoldable pub rate_of : Limiters R L → R
  rate_of l = if lib.is_zero l.rate then default_rate else l.rate

  unfoldable or_default : ℤ → ℤ
  or_default (pos n) = if nat_eq n 0 then default_burst else pos n
  or_default n = n

  unfoldable pub burst_of : Limiters R L → ℤ
  unfolding or_default
  burst_of l = or_default l.burst

  unfoldable pub entries_of : Limiters R L → List (String × L)
  entries_of l = elim l.limiters [ none ↦ [] | some entries ↦ entries ]

  -- What Get does with the entry that it looked up.
  unfoldable pub or_new : String → Option L → Limiters R L → W → L × (Limiters R L × W)
  unfolding insert entries_of rate_of burst_of
  or_new key (some limiter) l w = (limiter, (record l { limiters = some (entries_of l) }, w))
  or_new key none l w =
      let (limiter, w') = lib.new_limiter (rate_of l) (burst_of l) w in
      (limiter, (record l { limiters = some (insert key limiter (entries_of l)) }, w'))

  unfoldable pub get : String → Limiters R L → W → L × (Limiters R L × W)
  unfolding lookup
  get key l w = or_new key (lookup key (entries_of l)) l w

  unfoldable pub delete : String → Limiters R L → Limiters R L
  delete key l = elim l.limiters [
    | none ↦ l
    | some entries ↦ record l { limiters = some (remove key entries) }
  ]

-- The operations that goroutines make, in the order in which they get the mutex.
pub data Operation : Type 0 where
  get_of delete_of : String → Operation

module _ {W R L : Type 0} (lib : RateLibrary W R L) where
  unfoldable pub run : List Operation → Limiters R L × W → Limiters R L × W
  unfolding get delete
  run [] s = s
  run (get_of key ∷ ops) (l, w) = run ops (get lib key l w).1
  run (delete_of key ∷ ops) (l, w) = run ops (delete lib key l, w)

  -- No operation deletes the key.
  unfoldable pub spares : String → List Operation → Bool
  spares key [] = true
  spares key (get_of k ∷ ops) = spares key ops
  spares key (delete_of k ∷ ops) = if k == key then false else spares key ops

  pub get-lookup :
      (key : String) (l : Limiters R L) (w : W)
      → lookup key (entries_of lib (get lib key l w).1.0) ≡ some (get lib key l w).0
  unfolding get or_new entries_of
  get-lookup key l w = elim (Option-cases (lookup key (entries_of lib l))) [
    | inl q ↦ rw q (lookup-insert_self key _ _)
    | inr (limiter, q) ↦ rw q q
  ]

  -- A limiter that is there stays, whoever asks for another one.
  get-lookup_other :
      (key k : String) (l : Limiters R L) (w : W) (limiter : L)
      → lookup key (entries_of lib l) ≡ some limiter
      → lookup key (entries_of lib (get lib k l w).1.0) ≡ some limiter
  unfolding get or_new entries_of
  get-lookup_other key k l w limiter h = elim (Option-cases (lookup k (entries_of lib l))) [
    | inl q ↦ rw q (
        lookup-insert key k _ _ (λ e. ground (arith, h, q, ap (λ x. lookup x (entries_of lib l)) e))
        ∙ h)
    | inr (other, q) ↦ rw q h
  ]

  delete-lookup_other :
      (key k : String) (l : Limiters R L) (limiter : L)
      → key ≢ k
      → lookup key (entries_of lib l) ≡ some limiter
      → lookup key (entries_of lib (delete lib k l)) ≡ some limiter
  unfolding delete entries_of
  delete-lookup_other key k l limiter ne h = elim (Option-cases l.limiters) [
    | inl q ↦ rw q (rw q at h)
    | inr (entries, q) ↦ rw q (lookup-remove key k entries ne ∙ rw q at h)
  ]

  pub run-lookup :
      (key : String) (ops : List Operation) (l : Limiters R L) (w : W) (limiter : L)
      → spares key ops ≡ true
      → lookup key (entries_of lib l) ≡ some limiter
      → lookup key (entries_of lib (run ops (l, w)).0) ≡ some limiter
  unfolding run spares
  run-lookup key [] l w limiter s h = h
  run-lookup key (get_of k ∷ ops) l w limiter s h =
      run-lookup key ops (get lib k l w).1.0 (get lib k l w).1.1 limiter s
        (get-lookup_other key k l w limiter h)
  run-lookup key (delete_of k ∷ ops) l w limiter s h = elim (Bool-cases (k == key)) [
    | inl p ↦ ground (arith, p, s)
    | inr p ↦
        run-lookup key ops (delete lib k l) w limiter (ground (arith, p, s))
          (delete-lookup_other key k l limiter (λ e. ground (arith, p, e, eq_iff k key)) h)
  ]

  pub get-found :
      (key : String) (l : Limiters R L) (w : W) (limiter : L)
      → lookup key (entries_of lib l) ≡ some limiter
      → ((get lib key l w).0 ≡ limiter) × ((get lib key l w).1.1 ≡ w)
  unfolding get or_new
  get-found key l w limiter h = rw h (refl, refl)

  -- Everyone who asks for a provider's limiter gets the same one, and no other is made for them, whatever operations
  -- lie between, as long as none of these deletes it.
  get-shared :
      (key : String) (ops : List Operation) (l : Limiters R L) (w : W)
      → spares key ops ≡ true
      → let (first, state) = get lib key l w in
        let (l', w') = run ops state in
        ((get lib key l' w').0 ≡ first) × ((get lib key l' w').1.1 ≡ w')
  get-shared key ops l w s = get-found key _ _ _ (run-lookup key ops _ _ _ s (get-lookup key l w))

  pub get-missing :
      (key : String) (l : Limiters R L) (w : W)
      → lookup key (entries_of lib l) ≡ none
      → (get lib key l w).0 ≡ (lib.new_limiter (rate_of lib l) (burst_of lib l) w).0
  unfolding get or_new
  get-missing key l w h = rw h refl

  pub delete-lookup :
      (key : String) (l : Limiters R L) → lookup key (entries_of lib (delete lib key l)) ≡ none
  unfolding delete entries_of lookup
  delete-lookup key l = elim (Option-cases l.limiters) [
    | inl q ↦ rw q refl
    | inr (entries, q) ↦ rw q (lookup-remove_self key entries)
  ]

  -- Delete leaves the configuration alone.
  pub delete-settings :
      (key : String) (l : Limiters R L)
      → (rate_of lib (delete lib key l) ≡ rate_of lib l)
        × (burst_of lib (delete lib key l) ≡ burst_of lib l)
  unfolding delete rate_of burst_of
  delete-settings key l = elim (Option-cases l.limiters) [
    | inl q ↦ rw q (refl, refl)
    | inr (entries, q) ↦ rw q (refl, refl)
  ]

  -- After Delete the next Get makes a new limiter, at the configured rate and burst.
  pub get-delete :
      (key : String) (l : Limiters R L) (w : W)
      → (get lib key (delete lib key l) w).0
        ≡ (lib.new_limiter (rate_of lib l) (burst_of lib l) w).0
  get-delete key l w =
      let (same_rate, same_burst) = delete-settings key l in
      get-missing key (delete lib key l) w (delete-lookup key l)
      ∙ ap₂ (λ rate burst. (lib.new_limiter rate burst w).0) same_rate same_burst
