-- ===== src/Controller/Watches/Indexes.antt =====
-- internal/controller/indexers.go: listings by an indexed field, and what the index of the secrets holds.
use mathlib.Core.List.{Memᴰ}
use directory_rbac_operator.Base.{
  String, ◌≡◌, ◌↔◌, inl, inr, refl, sym, Option, none, some, List, [], ◌∷◌, Memᴰ-append,
}
use directory_rbac_operator.Go.Action.{Result, ok, Action}
use directory_rbac_operator.Go.Action.Keeps.{Keeps}
use directory_rbac_operator.Api.{LdapProvider, TlsConfig, SecretKeyRef}
use directory_rbac_operator.Controller.Watches.{name_of, ca_names, provider_index}

-- A listing by an indexed field answers from a cache that listings do not change: with the cached objects for which
-- the index function gives the value, whenever it answers.
pub record Lists {W E V B : Type 0} (cache : W → V) (index : B → List String)
    (list : String → Action W E (List B)) : Type 0 where
  pub items : V → List B
  pub answer : String → V → Result E (List B)
  pub list-answer : (value : String) (w : W) → (list value w).0 ≡ answer value (cache w)
  pub list-Keeps : (value : String) → Keeps cache (list value)
  pub listed_iff :
      (value : String) (v : V) (listed : List B)
      → answer value v ≡ ok listed
      → (b : B) → Memᴰ b listed ↔ (Memᴰ b (items v) × Memᴰ value (index b))

-- The provider reads the secret of the name.
pub data Reads (p : LdapProvider) (name : String) : Type 0 where
  bind_password : p.spec.bind_password_secret_ref.name ≡ name → Reads p name
  ca_bundle :
      (tls : TlsConfig) (ref : SecretKeyRef)
      → p.spec.tls_config ≡ some tls
      → tls.ca_secret_ref ≡ some ref
      → ref.name ≡ name
      → Reads p name

pub singleton_iff : (a b : String) → Memᴰ a (b ∷ []) ↔ (b ≡ a)
singleton_iff a b =
    (λ m. elim m [ Memᴰ.head e ↦ sym e | Memᴰ.tail m' ↦ elim m' [ ] ], λ q. Memᴰ.head (sym q))

name_of_iff :
    (o : Option SecretKeyRef) (name : String)
    → Memᴰ name (name_of o) ↔ ((ref : SecretKeyRef) × (o ≡ some ref) × (ref.name ≡ name))
unfolding name_of
name_of_iff none name = (λ m. elim m [ ], λ (ref, q, _). cc)
name_of_iff (some ref) name =
    let (forth, back) = singleton_iff name ref.name in
    (λ m. (ref, refl, forth m), λ (ref', q, named). back cc)

ca_names_iff :
    (o : Option TlsConfig) (name : String)
    → Memᴰ name (ca_names o) ↔ (
        (tls : TlsConfig) × (ref : SecretKeyRef) × (o ≡ some tls)
        × (tls.ca_secret_ref ≡ some ref)
        × (ref.name ≡ name))
unfolding ca_names
ca_names_iff none name = (λ m. elim m [ ], λ (tls, ref, q, _, _). cc)
ca_names_iff (some tls) name =
    let (forth, back) = name_of_iff tls.ca_secret_ref name in
    (
      λ m. let (ref, has, named) = forth m in (tls, ref, refl, has, named),
      λ (tls', ref, q, has, named). back (ref, cc, named),
    )

pub provider_index_iff :
    (p : LdapProvider) (name : String) → Memᴰ name (provider_index p) ↔ Reads p name
unfolding provider_index
provider_index_iff p name =
    let (forth, back) =
      Memᴰ-append name (p.spec.bind_password_secret_ref.name ∷ []) (ca_names p.spec.tls_config) in
    let (of_bind, bind_of) = singleton_iff name p.spec.bind_password_secret_ref.name in
    let (of_ca, ca_of) = ca_names_iff p.spec.tls_config name in
    (
      λ m. elim (forth m) [
        | inl n ↦ Reads.bind_password (of_bind n)
        | inr n ↦ let (tls, ref, q, has, named) = of_ca n in Reads.ca_bundle tls ref q has named
      ],
      λ h. elim h [
        | Reads.bind_password q ↦ back (inl (bind_of q))
        | Reads.ca_bundle tls ref q has named ↦ back (inr (ca_of (tls, ref, q, has, named)))
      ],
    )
