-- ===== src/Controller/Provider/Transport.antt =====
-- internal/controller/ldapprovider_controller.go: which specifications validateTLSConfig accepts.
use directory_rbac_operator.Base.{
  ◌≡◌, inl, inr, refl, true, false, Bool-cases, Option, none, some, starts_with,
}
use directory_rbac_operator.Go.Errors.{GoError, plain}
use directory_rbac_operator.Go.Action.{ok, err, pure, fail}
use directory_rbac_operator.Api.{LdapProviderSpec, SecretKeyRef, TlsConfig}
use directory_rbac_operator.Controller.Provider.{no_tls_choice, has_ca, validate_tls_config}

-- A specification that says how the connection is secured: an ldaps URL, plain text, or a CA for StartTLS.
pub data IsExplicit (spec : LdapProviderSpec) : Type 0 where
  ldaps : starts_with spec.url "ldaps://" ≡ true → IsExplicit spec
  plain_text : spec.insecure_skip_tls ≡ true → IsExplicit spec
  with_ca :
      (tls : TlsConfig) (ref : SecretKeyRef)
      → spec.tls_config ≡ some tls
      → tls.ca_secret_ref ≡ some ref
      → IsExplicit spec

-- One that does not.
pub record IsImplicit (spec : LdapProviderSpec) : Type 0 where
  pub not_ldaps : starts_with spec.url "ldaps://" ≡ false
  pub not_plain_text : spec.insecure_skip_tls ≡ false
  pub without_ca : (tls : TlsConfig) → spec.tls_config ≡ some tls → tls.ca_secret_ref ≡ none

has_ca-none :
    (tls : Option TlsConfig)
    → ((t : TlsConfig) → tls ≡ some t → t.ca_secret_ref ≡ none)
    → has_ca tls ≡ false
unfolding has_ca
has_ca-none none h = refl
has_ca-none (some t) h = rw (h t refl)

module _ {W E : Type 0} where
  pub validate-IsExplicit :
      (spec : LdapProviderSpec) (w : W)
      → IsExplicit spec
      → validate_tls_config {W = W} {E = E} spec w ≡ (ok tt, w)
  unfolding validate_tls_config has_ca pure
  validate-IsExplicit spec w (ldaps q) = rw q
  validate-IsExplicit spec w (plain_text q) = elim (Bool-cases (starts_with spec.url "ldaps://")) [
    | inl p ↦ rw p
    | inr p ↦ rw (p, q)
  ]
  validate-IsExplicit spec w (with_ca tls ref q t) =
      elim (Bool-cases (starts_with spec.url "ldaps://")) [
        | inl p ↦ rw p
        | inr p ↦ elim (Bool-cases spec.insecure_skip_tls) [
          | inl s ↦ rw (p, s)
          | inr s ↦ rw (p, s, q, t)
        ]
      ]

  pub validate-IsImplicit :
      (spec : LdapProviderSpec) (w : W)
      → IsImplicit spec
      → (e : GoError E) × (validate_tls_config {W = W} {E = E} spec w ≡ (err e, w))
  unfolding validate_tls_config fail
  validate-IsImplicit spec w h = (
    plain no_tls_choice,
    rw (h.not_ldaps, h.not_plain_text, has_ca-none spec.tls_config h.without_ca),
  )
