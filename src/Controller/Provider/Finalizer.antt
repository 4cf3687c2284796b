-- ===== src/Controller/Provider/Finalizer.antt =====
-- internal/controller/ldapprovider_controller.go: when the finalizer lets go of a provider.
use directory_rbac_operator.Base.{
  ℕ, String, ◌≡◌, refl, ◌∙◌, ◌⊎◌, inl, inr, true, false, not, List, [], ◌∷◌, Bool-cases,
}
use directory_rbac_operator.Go.Errors.{foreign}
use directory_rbac_operator.Go.Action.{
  Result, ok, err, ◌>>=◌, ◌>>◌, call, map_err, with_error, and_then, pure, perform,
}
use directory_rbac_operator.Go.Action.Keeps.{Keeps}
use directory_rbac_operator.Kube.Client.{Client}
use directory_rbac_operator.Api.{LdapProvider, RbacGroupBinding, ClusterRbacGroupBinding}
use directory_rbac_operator.Controller.Common.{record_warning}
use directory_rbac_operator.Controller.Laws.{KeepsView}
use directory_rbac_operator.Controller.Provider.{
  LdapProviderReconciler, in_use_protection_finalizer, after_bindings, has_dependents, on_in_use,
  finalize,
}

-- Listing does not touch the view.
pub record ListsKeep {W E V : Type 0} (c : Client W E) (view : W → V) : Type 0 where
  pub list_bindings_of-Keeps :
      (name : String) (limit : ℕ) → Keeps view (c.list_bindings_of name limit)
  pub list_cluster_bindings_of-Keeps :
      (name : String) (limit : ℕ) → Keeps view (c.list_cluster_bindings_of name limit)

-- Both lists of what refers to the provider were answered, and both were empty.
pub record IsUnused {W E : Type 0} (c : Client W E) (p : LdapProvider) (w : W) : Type 0 where
  pub no_bindings : (c.list_bindings_of p.meta.name 1 w).0 ≡ ok []
  pub no_cluster_bindings :
      (c.list_cluster_bindings_of p.meta.name 1 (c.list_bindings_of p.meta.name 1 w).1).0 ≡ ok []

module _ {W E V : Type 0} (r : LdapProviderReconciler W E) (view : W → V)
    (lists : ListsKeep r.client view) (keeps : KeepsView r.runtime view) where
  after_cluster :
      (p : LdapProvider) (found : Result E (List ClusterRbacGroupBinding)) (w : W)
      → (view
            ((and_then (with_error foreign found) (λ l. pure (elim l [ [] ↦ false | _ ∷ _ ↦ true ]))
                >>= on_in_use r p)
              w).1
          ≡ view w)
        ⊎ (found ≡ ok [])
  unfolding ◌>>=◌ ◌>>◌ with_error and_then pure on_in_use perform record_warning
  after_cluster p (err e) w = inl refl
  after_cluster p (ok []) w = inr refl
  after_cluster p (ok (b ∷ bs)) w = inl (keeps.record_event-keeps _ w)

  after_list :
      (p : LdapProvider) (found : Result E (List RbacGroupBinding)) (w : W)
      → (view ((and_then (with_error foreign found) (after_bindings r p) >>= on_in_use r p) w).1
          ≡ view w)
        ⊎ ((found ≡ ok []) × ((r.client.list_cluster_bindings_of p.meta.name 1 w).0 ≡ ok []))
  unfolding ◌>>=◌ ◌>>◌ with_error and_then pure on_in_use perform record_warning after_bindings call
      map_err
  after_list p (err e) w = inl refl
  after_list p (ok (b ∷ bs)) w = inl (keeps.record_event-keeps _ w)
  after_list p (ok []) w =
      elim (after_cluster p (r.client.list_cluster_bindings_of p.meta.name 1 w).0
        (r.client.list_cluster_bindings_of p.meta.name 1 w).1) [
          | inl same ↦ inl (same ∙ (lists.list_cluster_bindings_of-Keeps p.meta.name 1).keeps w)
          | inr q ↦ inr (refl, q)
        ]

  -- While a provider is being deleted, finalize changes nothing that is stored, whatever is regarded as stored, unless
  -- both kinds of bindings were listed and no binding refers to the provider: a failed List keeps the finalizer too.
  pub finalize-IsUnused :
      (p : LdapProvider) (w : W) → (view (finalize r p w).1 ≡ view w) ⊎ IsUnused r.client p w
  unfolding finalize has_dependents ◌>>=◌ call map_err pure
  finalize-IsUnused p w =
      elim (Bool-cases (not (r.finalizers.contains_finalizer p in_use_protection_finalizer))) [
        | inl q ↦ inl (rw q refl)
        | inr q ↦
            elim (after_list p (r.client.list_bindings_of p.meta.name 1 w).0
              (r.client.list_bindings_of p.meta.name 1 w).1) [
                | inl same ↦
                    inl (rw q (same ∙ (lists.list_bindings_of-Keeps p.meta.name 1).keeps w))
                | inr (a, b) ↦ inr (record { no_bindings = a; no_cluster_bindings = b })
              ]
      ]
