-- ===== src/Controller/Factory/Sources.antt =====
-- internal/controller: the reconciler of bindings with the factory and the client of package ldapclient, as main.go
-- puts them together.
use directory_rbac_operator.Base.{◌≡◌, ◌⊎◌, inl, inr, sym, ap, ◌∙◌, subst, String, List}
use directory_rbac_operator.Go.Action.{ok}
use directory_rbac_operator.Go.Action.Keeps.{Keeps, keeps_rules}
use directory_rbac_operator.Go.Sort.{Sorter}
use directory_rbac_operator.Kube.Objects.{ObjectKey}
use directory_rbac_operator.Kube.Client.{ClientLaws, SecretStore}
use directory_rbac_operator.Kube.Runtime.{Runtime}
use directory_rbac_operator.Api.{RbacGroupBinding, LdapProvider, SecretKeyRef}
use directory_rbac_operator.Ldapclient.Library.{Library, Config}
use directory_rbac_operator.Ldapclient.Client.{get_group_members}
use directory_rbac_operator.Ldapclient.Frame.{AllCallsKeep, get_group_members-Keeps}
use directory_rbac_operator.Controller.Laws.{KeepsView, ResolverKeeps}
use directory_rbac_operator.Controller.Binding.Status.{RbacGroupBindingReconciler}
use directory_rbac_operator.Controller.Binding.Reconcile.{reconcile}
use directory_rbac_operator.Controller.Binding.Frame.{
  provider_key, HasResolved, reconcile-role_bindings,
}
use directory_rbac_operator.Controller.Factory.{
  CertificateLibrary, GrouperFactory, limiter_for, secret_value, tls_config, new_client, grouper,
}
use directory_rbac_operator.Controller.Factory.Frame.{secret_value-Keeps, tls_config-Keeps}
use directory_rbac_operator.Controller.Factory.Settings.{IsConfigured, new_client-IsConfigured}
use directory_rbac_operator.Controller.Factory.Secrecy.{grouper-ok}

module _ {W E C T L N P : Type 0} (lib : Library W E C T L N) (certs : CertificateLibrary T P)
    (f : GrouperFactory W E L) (s : Sorter String) (runtime : Runtime W E) where
  -- The reconciler of bindings, which shares its client with the factory.
  abbrev pub wired : RbacGroupBindingReconciler W E
  wired = record { client = f.client; runtime = runtime; grouper = grouper lib certs f s }

  module _ {V : Type 0} (view : W → V)
      (get_secret-Keeps : (key : ObjectKey) → Keeps view (f.client.get_secret key))
      (limiter-keeps : (name : String) (w : W) → view (limiter_for f.get_limiter name w).1 ≡ view w)
      (all : AllCallsKeep lib view) where
    value-Keeps : (ref : SecretKeyRef) → Keeps view (secret_value lib certs f ref)
    value-Keeps = secret_value-Keeps lib certs f view get_secret-Keeps

    ca-Keeps : (p : LdapProvider) → Keeps view (tls_config lib certs f p)
    ca-Keeps = tls_config-Keeps lib certs f view get_secret-Keeps

    grouper-Keeps : (p : LdapProvider) → Keeps view (grouper lib certs f s p)
    unfolding grouper new_client
    grouper-Keeps p = search (keeps_rules, value-Keeps, ca-Keeps, limiter-keeps) depth 12

    pub grouper-ResolverKeeps : ResolverKeeps (grouper lib certs f s) view
    grouper-ResolverKeeps = record {
      resolver-Keeps = grouper-Keeps;
      grouper-Keeps = λ p w g dn q.
          let (cfg, _, is_g) = grouper-ok lib certs f s p w g q in
          subst (λ g'. Keeps view (g' dn)) (sym is_g)
            (get_group_members-Keeps lib cfg view all s dn);
    }

  module _ (laws : ClientLaws f.client) (store : SecretStore f.client)
      (keeps : KeepsView runtime laws.role_bindings)
      (get_secret-Keeps : (key : ObjectKey) → Keeps laws.role_bindings (f.client.get_secret key))
      (limiter-keeps : (name : String) (w : W)
        → laws.role_bindings (limiter_for f.get_limiter name w).1 ≡ laws.role_bindings w)
      (all : AllCallsKeep lib laws.role_bindings) where
    open laws use {role_bindings}

    -- What a change of RoleBindings goes back to: the members of the binding's group as the directory that its provider
    -- names answered them, to a client that was configured from that provider and the stored secrets.
    pub record IsFromDirectory (req : ObjectKey) (w : W) : Type 0 where
      pub binding : RbacGroupBinding
      pub binding_found : (f.client.get_binding req w).0 ≡ ok binding
      pub provider : LdapProvider
      pub provider_found :
          (f.client.get_provider (provider_key binding) (f.client.get_binding req w).1).0
          ≡ ok provider
      pub cfg : Config T L
      pub is_configured :
          IsConfigured lib certs f store provider
            (f.client.get_provider (provider_key binding) (f.client.get_binding req w).1).1
            cfg
      pub asked : W
      pub members : List String
      pub answered : (get_group_members lib cfg s binding.spec.group_dn asked).0 ≡ ok members

    from_directory : (req : ObjectKey) (w : W) → HasResolved wired req w → IsFromDirectory req w
    from_directory req w h =
        let before =
          (f.client.get_provider (provider_key h.binding) (f.client.get_binding req w).1).1 in
        let (cfg, built, is_g) =
          grouper-ok lib certs f s h.provider before _ h.has_members.resolved in
        record {
          binding = h.binding;
          binding_found = h.binding_found;
          provider = h.provider;
          provider_found = h.provider_found;
          cfg = cfg;
          is_configured = new_client-IsConfigured lib certs f store h.provider before cfg built;
          asked = (grouper lib certs f s h.provider before).1;
          members = h.has_members.members;
          answered =
              ap (λ g. (g h.binding.spec.group_dn (grouper lib certs f s h.provider before).1).0)
                (sym is_g)
              ∙ h.has_members.answered;
        }

    -- With the factory and the LDAP client in place, Reconcile leaves every RoleBinding as it is, or the members of the
    -- group were resolved by a client that has the URL, the names, the stored bind password and the stored CA that the
    -- binding's provider refers to. A secret that is missing, lacks the key or holds no certificate changes nothing.
    pub reconcile-IsFromDirectory :
        (req : ObjectKey) (w : W)
        → (role_bindings (reconcile wired req w).1 ≡ role_bindings w) ⊎ IsFromDirectory req w
    reconcile-IsFromDirectory req w =
        elim (reconcile-role_bindings wired laws keeps
          (grouper-ResolverKeeps role_bindings get_secret-Keeps limiter-keeps all) req w) [
            | inl same ↦ inl same
            | inr h ↦ inr (from_directory req w h)
          ]
