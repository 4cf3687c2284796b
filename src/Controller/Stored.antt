-- ===== src/Controller/Stored.antt =====
-- A status that a reconciler writes as its last call, and what is returned once it is written.
use directory_rbac_operator.Base.{◌≡◌, ◌⊎◌, inl, inr, ap, ◌∙◌, Option, some}
use directory_rbac_operator.Go.Errors.{GoError, foreign}
use directory_rbac_operator.Go.Action.{
  Result, ok, err, Result-cases, Action, ◌>>=◌, ◌>>◌, call, with_error,
}
use directory_rbac_operator.Kube.Objects.{ObjectKey}

-- The API server refused the status, and its error is what is returned.
abbrev pub Refused : {E A : Type 0} → Result (GoError E) A → Type 0
Refused {E} res = (e : E) × (res ≡ err (foreign e))

module _ {W B S : Type 0} (objects : W → ObjectKey → Option B) (status_of : B → S) where
  -- The status that the world holds for the object at this key.
  pub record HasStatus (key : ObjectKey) (w : W) (P : S → Type 0) : Type 0 where
    pub stored : B
    pub at_key : objects w key ≡ some stored
    pub status : P (status_of stored)

  pub HasStatus-later :
      {key : ObjectKey} {w w' : W} {P : S → Type 0}
      → objects w' ≡ objects w
      → HasStatus key w P
      → HasStatus key w' P
  HasStatus-later {key} same h = record {
    stored = h.stored;
    at_key = ap (λ v. v key) same ∙ h.at_key;
    status = h.status;
  }

  -- The update of a status, and what comes after it.
  pub write_status :
      {E A : Type 0} (update : Action W E (Unit {0})) (key : ObjectKey) (sent : S)
      (k : Action W (GoError E) A) (w : W) (P : S → Type 0) (res : Result (GoError E) A)
      → ((update w).0 ≡ ok tt
          → (b : B) × (objects (update w).1 key ≡ some b) × (status_of b ≡ sent))
      → P sent
      → ((w' : W) → k w' ≡ (res, w'))
      → let m = (call update >> k) w in Refused m.0 ⊎ ((m.0 ≡ res) × HasStatus key m.1 P)
  unfolding call ◌>>◌ ◌>>=◌ with_error
  write_status update key sent k w P res stores p h = elim (Result-cases (update w).0) [
    | inl (_, q) ↦
        let (b, at, same) = stores q in
        let w' = (update w).1 in
        inr (
          rw q (ap (λ m. m.0) (h w')),
          rw q (rw (h w') (record { stored = b; at_key = at; status = rw same p })),
        )
    | inr (e, q) ↦ inl (e, rw q)
  ]
