-- ===== src/Base/Members.antt =====
-- The members of a list that is put together.
use mathlib.Core.Path.{◌≡◌, refl, sym, ap, ◌∙◌}
use mathlib.Core.Logic.{◌↔◌, ◌⊎◌, inl, inr}
use mathlib.Core.List.{Memᴰ, List, [], ◌∷◌, ◌++◌, map}

module _ {ℓ κ} {A : Type ℓ} {B : Type κ} where
  pub Memᴰ-map :
      (f : A → B) (b : B) (l : List A) → Memᴰ b (map f l) ↔ ((a : A) × Memᴰ a l × (f a ≡ b))
  Memᴰ-map f b [] = (λ m. elim m [ ], λ (a, m, q). elim m [ ])
  Memᴰ-map f b (x ∷ l) =
      let (forth, back) = Memᴰ-map f b l in
      (
        λ m. elim m [
          | Memᴰ.head e ↦ (x, Memᴰ.head refl, sym e)
          | Memᴰ.tail m' ↦ let (a, at, q) = forth m' in (a, Memᴰ.tail at, q)
        ],
        λ (a, m, q). elim m [
          | Memᴰ.head e ↦ Memᴰ.head (sym q ∙ ap f e)
          | Memᴰ.tail m' ↦ Memᴰ.tail (back (a, m', q))
        ],
      )

pub Memᴰ-append {ℓ} : {A : Type ℓ} (x : A) (l m : List A) → Memᴰ x (l ++ m) ↔ (Memᴰ x l ⊎ Memᴰ x m)
Memᴰ-append x [] m = (λ h. inr h, λ h. elim h [ inl n ↦ elim n [ ] | inr n ↦ n ])
Memᴰ-append x (y ∷ l) m =
    let (forth, back) = Memᴰ-append x l m in
    (
      λ h. elim h [
        | Memᴰ.head e ↦ inl (Memᴰ.head e)
        | Memᴰ.tail h' ↦ elim (forth h') [ inl n ↦ inl (Memᴰ.tail n) | inr n ↦ inr n ]
      ],
      λ h. elim h [
        | inl n ↦ elim n [ Memᴰ.head e ↦ Memᴰ.head e | Memᴰ.tail n' ↦ Memᴰ.tail (back (inl n')) ]
        | inr n ↦ Memᴰ.tail (back (inr n))
      ],
    )
