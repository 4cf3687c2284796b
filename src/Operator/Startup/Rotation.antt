-- ===== src/Operator/Startup/Rotation.antt =====
-- main.go and SetupWithManager: which bindings are reconciled when a secret of a provider is rotated.
use mathlib.Core.List.{Memᴰ}
use directory_rbac_operator.Base.{
  String, ◌≡◌, ◌≢◌, ◌↔◌, refl, sym, ap, ◌∙◌, subst, eq_iff, true, List, [], ◌∷◌,
}
use directory_rbac_operator.Go.Action.{ok}
use directory_rbac_operator.Go.Sort.{Sorter}
use directory_rbac_operator.Kube.Objects.{ObjectKey, key_of, Secret}
use directory_rbac_operator.Api.{LdapProvider}
use directory_rbac_operator.Ldapclient.Library.{Library}
use directory_rbac_operator.Ldapclient.Limiters.{RateLibrary}
use directory_rbac_operator.Controller.Provider.{FinalizerLibrary}
use directory_rbac_operator.Controller.Factory.{CertificateLibrary}
use directory_rbac_operator.Controller.Watches.{
  secret_object, MapFunc, get_name, binding_index, cluster_binding_index, provider_index,
}
use directory_rbac_operator.Controller.Watches.Indexes.{Lists}
use directory_rbac_operator.Controller.Watches.Reach.{DependsOn, map_secret_iff}
use directory_rbac_operator.Controller.Setup.{
  ldap_providers, secrets, Watch, watch_providers, watch_secrets, in_secret_namespace,
  get_namespace, binding_controller, cluster_binding_controller,
}
use directory_rbac_operator.Operator.{grouper_factory}
use directory_rbac_operator.Operator.Startup.{
  Flags, Services, mgr, binding_spec, cluster_binding_spec,
}

-- A change of the secret brings the key into the queue of a controller: a watch on secrets lets it pass and its
-- function gives the key.
pub record Triggers {W : Type 0} (watches : List (Watch W)) (secret : Secret) (w : W)
    (k : ObjectKey) : Type 0 where
  pub watch : Watch W
  pub among : Memᴰ watch watches
  pub on_secrets : watch.object ≡ secrets
  pub passes : watch.predicate (secret_object secret) ≡ true
  pub requested : Memᴰ k (watch.map_func (secret_object secret) w).0

-- The second of two conditions, in other words.
with_second : {A B C D : Type 0} → (A ↔ (B × C)) → (C ↔ D) → A ↔ (B × D)
with_second (forth, back) (ahead, home) =
    (λ a. let (b, c) = forth a in (b, ahead c), λ (b, d). back (b, home d))

ldap_providers≢secrets : ldap_providers ≢ secrets
ldap_providers≢secrets h = cc

module _ {W : Type 0} (secret_namespace : String) (of_provider of_secret : MapFunc W)
    (secret : Secret) (w : W) (k : ObjectKey) where
  abbrev both : List (Watch W)
  both = watch_providers of_provider ∷ watch_secrets secret_namespace of_secret ∷ []

  -- Of the two watches of a controller of bindings, the one on secrets alone matters.
  both_iff :
      Triggers both secret w k
      ↔ ((secret.meta.namespace ≡ secret_namespace) × Memᴰ k (of_secret (secret_object secret) w).0)
  unfolding watch_providers watch_secrets in_secret_namespace get_namespace
  both_iff = (
    λ h. elim h.among [
      | Memᴰ.head e ↦ absurd (ldap_providers≢secrets (sym (ap (λ x. x.object) e) ∙ h.on_secrets))
      | Memᴰ.tail m ↦ elim m [
        | Memᴰ.head e ↦ (
          (eq_iff secret.meta.namespace secret_namespace).0
              (sym (ap (λ x. x.predicate (secret_object secret)) e) ∙ h.passes),
          subst (λ (x : Watch W). Memᴰ k (x.map_func (secret_object secret) w).0) e h.requested,
        )
        | Memᴰ.tail n ↦ elim n [ ]
      ]
    ],
    λ (here, requested). record {
      watch = watch_secrets secret_namespace of_secret;
      among = Memᴰ.tail (Memᴰ.head refl);
      on_secrets = refl;
      passes = (eq_iff secret.meta.namespace secret_namespace).1 here;
      requested = requested;
    },
  )

module _ {W E C T R L N P : Type 0} (lib : Library W E C T L N) (certs : CertificateLibrary T P)
    (rates : RateLibrary W R L) (s : Sorter String) (finalizers : FinalizerLibrary)
    (srv : Services W E R L) (flags : Flags) where
  -- Where the clients' secrets are read.
  abbrev pub source_namespace : String
  source_namespace =
      (grouper_factory lib certs rates s finalizers
        (mgr lib certs rates s finalizers srv flags)).secret_namespace

module _ {W E C T R L N P V : Type 0} (lib : Library W E C T L N) (certs : CertificateLibrary T P)
    (rates : RateLibrary W R L) (s : Sorter String) (finalizers : FinalizerLibrary)
    (srv : Services W E R L) (flags : Flags) (cache : W → V)
    (providers : Lists cache provider_index srv.client.list_providers_of)
    (bindings : Lists cache binding_index (λ name. srv.client.list_bindings_of name 0))
    (cluster_bindings : Lists cache cluster_binding_index
      (λ name. srv.client.list_cluster_bindings_of name 0)) where
  -- In the operator that main puts together, and where the providers of a changed secret can be listed, the change has
  -- a binding, namespaced or cluster-wide, reconciled exactly if the secret is in the namespace from which clients are
  -- built and the binding refers to a provider that reads the secret as its bind password or its CA bundle, less the
  -- bindings of a provider for which they could not be listed.
  pub secret-Triggers_iff :
      (secret : Secret) (w : W) (ps : List LdapProvider) (k : ObjectKey)
      → providers.answer secret.meta.name (cache w) ≡ ok ps
      → (Triggers (binding_spec lib certs rates s finalizers srv flags).watches secret w k ↔ (
          (secret.meta.namespace ≡ source_namespace lib certs rates s finalizers srv flags)
          × DependsOn srv.client cache providers bindings
              (λ b. key_of b.meta)
              (λ b. b.spec.provider_ref)
              (cache w)
              secret.meta.name
              k))
        × (Triggers (cluster_binding_spec lib certs rates s finalizers srv flags).watches secret w k
            ↔ ((secret.meta.namespace ≡ source_namespace lib certs rates s finalizers srv flags)
                × DependsOn srv.client cache providers cluster_bindings
                    (λ b. key_of b.meta)
                    (λ b. b.spec.provider_ref)
                    (cache w)
                    secret.meta.name
                    k))
  unfolding binding_spec cluster_binding_spec binding_controller cluster_binding_controller
      grouper_factory get_name
  secret-Triggers_iff secret w ps k q =
      let (reach, cluster_reach) =
        map_secret_iff srv.client cache providers bindings cluster_bindings (secret_object secret) w
          ps k q in
      (
        with_second (both_iff flags.secret_namespace _ _ secret w k) reach,
        with_second (both_iff flags.secret_namespace _ _ secret w k) cluster_reach,
      )
