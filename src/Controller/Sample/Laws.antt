-- ===== src/Controller/Sample/Laws.antt =====
-- The cluster in memory meets the laws of the client and leaves the views alone that it should.
use directory_rbac_operator.Base.{
  ◌≡◌, ◌≢◌, refl, sym, ◌∙◌, arith, Bool-cases, inl, inr, ◌⊎◌, Option, some, none,
}
use directory_rbac_operator.Go.Action.{ok, ok≢err, Action}
use directory_rbac_operator.Go.Action.Keeps.{Keeps}
use directory_rbac_operator.Kube.Objects.{ObjectKey, key_of, RoleBinding, Secret}
use directory_rbac_operator.Kube.Client.{ClientLaws, SecretStore, Wrote, AtomicWrites}
use directory_rbac_operator.Controller.Laws.{KeepsView}
use directory_rbac_operator.Controller.Sample.{
  World, refused, same_key_iff, put, put_self, put_other, found, read_role_binding,
  create_role_binding, client, runtime,
}

pub same :
    {W V A X : Type 0} (view : W → V) (m : Action W X A)
    → ((w : W) → view (m w).1 ≡ view w)
    → Keeps view m
same view m h = record { keeps = h }

pub found-keeps :
    {A V : Type 0} (view : World → V) (o : Option A) (w : World) → view (found o w).1 ≡ view w
found-keeps view (some a) w = refl
found-keeps view none w = refl

pub wrote :
    (rb : RoleBinding) (f : ObjectKey → Option RoleBinding)
    → Wrote rb f (put (key_of rb.meta) (some rb) f)
wrote rb f = record {
  stored = rb;
  at_key = put_self (key_of rb.meta) (some rb) f;
  content = record { same_subjects = refl; same_role_ref = refl; same_owners = refl };
  elsewhere = put_other (key_of rb.meta) (some rb) f;
}

pub create-Wrote :
    (rb : RoleBinding) (w : World)
    → (create_role_binding rb w).0 ≡ ok tt
    → Wrote rb w.role_bindings (create_role_binding rb w).1.role_bindings
create-Wrote rb w h = elim (Bool-cases w.full) [
  | inl q ↦ absurd (ok≢err {a = tt} {e = refused} (sym h ∙ rw q))
  | inr q ↦ rw q (wrote rb w.role_bindings)
]

pub create-elsewhere :
    (rb : RoleBinding) (w : World) (key : ObjectKey)
    → key ≢ key_of rb.meta
    → (create_role_binding rb w).1.role_bindings key ≡ w.role_bindings key
create-elsewhere rb w key h = elim (Bool-cases w.full) [
  | inl q ↦ rw q
  | inr q ↦ rw q (put_other (key_of rb.meta) (some rb) w.role_bindings key h)
]

pub read-keeps :
    (key : ObjectKey) (w : World) → (read_role_binding key w).1.role_bindings ≡ w.role_bindings
read-keeps key w = ground arith

pub read-key :
    (key : ObjectKey) (w : World) (rb : RoleBinding)
    → (read_role_binding key w).0 ≡ ok rb
    → key_of rb.meta ≡ key
read-key key w rb h = ground (arith, same_key_iff (key_of rb.meta) key)

pub reads_stored :
    (key : ObjectKey) (w : World) (rb : RoleBinding)
    → (client.get_role_binding key w).0 ≡ ok rb
    → w.role_bindings key ≡ some rb
reads_stored key w rb h = ground arith

abbrev pub client_laws : ClientLaws client
client_laws = record {
  role_bindings = λ w. w.role_bindings;
  bindings = λ w. w.bindings;
  get_binding-keeps =
      λ key. same _ _ (λ w. found-keeps (λ w'. w'.role_bindings) (w.bindings key) w);
  get_provider-keeps =
      λ key. same _ _ (λ w. found-keeps (λ w'. w'.role_bindings) (w.providers key) w);
  get_role_binding-keeps = λ key. same _ _ (read-keeps key);
  update_binding_status-keeps = λ b. same _ _ (λ w. refl);
  create_role_binding-wrote = create-Wrote;
  update_role_binding-wrote = λ rb w h. wrote rb w.role_bindings;
  delete_role_binding-gone = λ rb w h. put_self (key_of rb.meta) none w.role_bindings;
  delete_role_binding-elsewhere = λ rb w. put_other (key_of rb.meta) none w.role_bindings;
  create_role_binding-elsewhere = create-elsewhere;
  update_role_binding-elsewhere = λ rb w. put_other (key_of rb.meta) (some rb) w.role_bindings;
  get_role_binding-key = read-key;
  update_binding_status-stored = λ b w h. (b, put_self (key_of b.meta) (some b) w.bindings, refl);
}

pub keeps_role_bindings : KeepsView runtime client_laws.role_bindings
keeps_role_bindings = record {
  now-keeps = λ w. refl;
  set_status_condition-keeps = λ cs c w. refl;
  record_event-keeps = λ e w. refl;
  observe-keeps = λ m w. refl;
}

pub keeps_bindings : KeepsView runtime client_laws.bindings
keeps_bindings = record {
  now-keeps = λ w. refl;
  set_status_condition-keeps = λ cs c w. refl;
  record_event-keeps = λ e w. refl;
  observe-keeps = λ m w. refl;
}

pub reads_secret :
    (key : ObjectKey) (w : World) (secret : Secret)
    → (client.get_secret key w).0 ≡ ok secret
    → w.secrets key ≡ some secret
reads_secret key w secret h = ground arith

abbrev pub secret_store : SecretStore client
secret_store = record {
  secrets = λ w. w.secrets;
  get_secret-Keeps = λ key. same _ _ (λ w. found-keeps (λ w'. w'.secrets) (w.secrets key) w);
  get_secret-stored = reads_secret;
}

pub get_secret-keeps_role_bindings :
    (key : ObjectKey) → Keeps (λ w. w.role_bindings) (client.get_secret key)
get_secret-keeps_role_bindings key =
    same _ _ (λ w. found-keeps (λ w'. w'.role_bindings) (w.secrets key) w)

create-atomic :
    (rb : RoleBinding) (w : World)
    → let after = (create_role_binding rb w).1.role_bindings in
      Wrote rb w.role_bindings after ⊎ (after ≡ w.role_bindings)
create-atomic rb w = elim (Bool-cases w.full) [
  | inl q ↦ rw q (inr refl)
  | inr q ↦ rw q (inl (wrote rb w.role_bindings))
]

pub atomic_writes : AtomicWrites client client_laws.role_bindings
atomic_writes = record {
  create_role_binding-atomic = create-atomic;
  update_role_binding-atomic = λ rb w. inl (wrote rb w.role_bindings);
  delete_role_binding-atomic = λ rb w. inl (put_self (key_of rb.meta) none w.role_bindings);
}
