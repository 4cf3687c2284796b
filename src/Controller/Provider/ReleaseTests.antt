-- ===== src/Controller/Provider/ReleaseTests.antt =====
-- A provider that is being deleted on a small cluster where nothing refers to it.
use directory_rbac_operator.Base.{
  arith, pos, String, ◌==◌, ◌≡◌, ◌⊎◌, refl, sym, ap, ◌∙◌, Bool, true, false, some, some-injective,
  List, [], ◌∷◌, if◌then◌else◌,
}
use directory_rbac_operator.Go.Errors.{foreign}
use directory_rbac_operator.Go.Action.{ok, err}
use directory_rbac_operator.Kube.Objects.{key_of}
use directory_rbac_operator.Kube.Client.{ProviderUpdates}
use directory_rbac_operator.Api.{LdapProvider}
use directory_rbac_operator.Controller.Sample.{World, ApiError, put_self}
use directory_rbac_operator.Controller.Provider.{
  LdapProviderReconciler, FinalizerLibrary, in_use_protection_finalizer, reconcile,
}
use directory_rbac_operator.Controller.Provider.Release.{
  FinalizerLaws, IsReleasable, IsReleased, reconcile-IsReleased,
}
use directory_rbac_operator.Controller.Provider.Tests.{
  provider, listing, reconciler, cluster_with, runtime_keeps,
}

has_name : String → List String → Bool
has_name name [] = false
has_name name (x ∷ xs) = let rest = has_name name xs in if x == name then true else rest

drop_name : String → List String → List String
drop_name name [] = []
drop_name name (x ∷ xs) = let rest = drop_name name xs in if x == name then rest else x ∷ rest

has_name-drop_name : (name : String) (xs : List String) → has_name name (drop_name name xs) ≡ false
unfolding has_name drop_name
has_name-drop_name name [] = refl
has_name-drop_name name (x ∷ xs) = ground (arith, has_name-drop_name name xs)

unfoldable pub list_finalizers : FinalizerLibrary
unfolding has_name drop_name
list_finalizers = record {
  contains_finalizer = λ p name. has_name name p.meta.finalizers;
  add_finalizer = λ p name.
      let meta = p.meta in
      record p { meta = record meta { finalizers = name ∷ p.meta.finalizers } };
  remove_finalizer = λ p name.
      let meta = p.meta in
      record p { meta = record meta { finalizers = drop_name name p.meta.finalizers } };
}

list_finalizers_laws : FinalizerLaws list_finalizers
unfolding list_finalizers
list_finalizers_laws = record {
  contains_finalizer-reads = λ p q name h. ap (has_name name) h;
  remove_finalizer-removed = λ p name. has_name-drop_name name p.meta.finalizers;
  remove_finalizer-key = λ p name. refl;
}

abbrev pub leaving : LdapProvider
leaving =
    let meta = provider.meta in
    record provider { meta = record meta { finalizers = in_use_protection_finalizer ∷ [] } }

abbrev with_finalizers : LdapProviderReconciler World ApiError
with_finalizers = record reconciler { finalizers = list_finalizers }

abbrev updates : ProviderUpdates listing
updates = record {
  providers = λ w. w.providers;
  update_provider-stored = λ p w sent stored q at.
      ap (λ x. x.meta.finalizers)
        (some-injective (sym at ∙ put_self (key_of p.meta) (some p) w.providers));
}

leaving-IsReleasable :
    IsReleasable with_finalizers (key_of leaving.meta) (cluster_with leaving) leaving
unfolding list_finalizers
leaving-IsReleasable = record {
  found = refl;
  is_deleted = refl;
  is_protected = refl;
  is_unused = record { no_bindings = refl; no_cluster_bindings = refl };
}

reconcile-IsReleased_example :
    let (res, after) = reconcile with_finalizers (key_of leaving.meta) (cluster_with leaving) in
    ((e : ApiError) × (res ≡ err (foreign e)))
    ⊎ ((res ≡ ok (record { requeue_after = pos 0 }))
        × IsReleased with_finalizers updates list_finalizers_laws runtime_keeps
            (key_of leaving.meta)
            after)
reconcile-IsReleased_example =
    reconcile-IsReleased with_finalizers updates list_finalizers_laws runtime_keeps
      (key_of leaving.meta) (cluster_with leaving) leaving leaving-IsReleasable
