-- ===== src/Controller/Watches/Loop.antt =====
-- internal/controller/mappers.go: what the loop over the providers of a secret collects.
use mathlib.Core.List.{Memᴰ}
use directory_rbac_operator.Base.{
  String, ◌≡◌, ◌↔◌, inl, inr, refl, sym, ap, ◌∙◌, subst, List, [], ◌∷◌, Memᴰ-map, Memᴰ-append,
}
use directory_rbac_operator.Go.Action.{Result, ok, err, ok≢err, ok-injective, Action}
use directory_rbac_operator.Kube.Objects.{ObjectKey}
use directory_rbac_operator.Api.{LdapProvider}
use directory_rbac_operator.Controller.Watches.{requests_of, requests_for}
use directory_rbac_operator.Controller.Watches.Indexes.{Lists}

module _ {W E V B : Type 0} (cache : W → V) (index : B → List String) (key : B → ObjectKey)
    (list : String → Action W E (List B)) (lists : Lists cache index list) where
  open lists use {items, answer}

  -- An object of the cache that one of the providers brings into the queue: the listing for it succeeds, and the
  -- object is indexed by its name.
  pub record IsReached (v : V) (providers : List LdapProvider) (k : ObjectKey) : Type 0 where
    pub provider : LdapProvider
    pub object : B
    pub listed : List B
    pub among : Memᴰ provider providers
    pub is_listed : answer provider.meta.name v ≡ ok listed
    pub is_cached : Memᴰ object (items v)
    pub is_indexed : Memᴰ provider.meta.name (index object)
    pub has_key : key object ≡ k

  pub requests_of_iff :
      (k : ObjectKey) (r : Result E (List B))
      → Memᴰ k (requests_of key r)
        ↔ ((listed : List B) × (r ≡ ok listed) × (b : B) × Memᴰ b listed × (key b ≡ k))
  unfolding requests_of
  requests_of_iff k (ok listed) =
      let (forth, back) = Memᴰ-map key k listed in
      (
        λ m. let (b, at, is_k) = forth m in (listed, refl, b, at, is_k),
        λ (listed', q, b, m, is_k). back (b, subst (λ l. Memᴰ b l) (sym (ok-injective q)) m, is_k),
      )
  requests_of_iff k (err e) = (λ m. elim m [ ], λ (listed, q, _, _, _). absurd (ok≢err (sym q)))

  -- A provider of the list may be named among more, or as one of fewer.
  among_others :
      {k : ObjectKey} {v : V} (ps qs : List LdapProvider) (h : IsReached v ps k)
      → Memᴰ h.provider qs
      → IsReached v qs k
  among_others ps qs h m = record {
    provider = h.provider;
    object = h.object;
    listed = h.listed;
    among = m;
    is_listed = h.is_listed;
    is_cached = h.is_cached;
    is_indexed = h.is_indexed;
    has_key = h.has_key;
  }

  -- What the listing for one provider brings in.
  requests_of-IsReached :
      (k : ObjectKey) (p : LdapProvider) (ps : List LdapProvider) (w : W)
      → Memᴰ k (requests_of key (list p.meta.name w).0)
      → IsReached (cache w) (p ∷ ps) k
  requests_of-IsReached k p ps w m =
      let (listed, q, b, at, is_k) = (requests_of_iff k (list p.meta.name w).0).0 m in
      let answered = sym (lists.list-answer p.meta.name w) ∙ q in
      let (is_cached, is_indexed) =
        (lists.listed_iff p.meta.name (cache w) listed answered b).0 at in
      record {
        provider = p;
        object = b;
        listed = listed;
        among = Memᴰ.head refl;
        is_listed = answered;
        is_cached = is_cached;
        is_indexed = is_indexed;
        has_key = is_k;
      }

  IsReached-requests_of :
      (k : ObjectKey) (p : LdapProvider) (ps : List LdapProvider) (w : W)
      (h : IsReached (cache w) ps k)
      → h.provider ≡ p
      → Memᴰ k (requests_of key (list p.meta.name w).0)
  IsReached-requests_of k p ps w h e =
      let at_p = ap (λ x. answer x.meta.name (cache w)) (sym e) ∙ h.is_listed in
      let listed =
        (lists.listed_iff h.provider.meta.name (cache w) h.listed h.is_listed h.object).1
          (h.is_cached, h.is_indexed) in
      (requests_of_iff k (list p.meta.name w).0).1
        (h.listed, lists.list-answer p.meta.name w ∙ at_p, h.object, listed, h.has_key)

  -- The loop collects the keys of what the providers of its list reach, and no others.
  pub requests_for_iff :
      (k : ObjectKey) (ps : List LdapProvider) (w : W)
      → Memᴰ k (requests_for key list ps w).0 ↔ IsReached (cache w) ps k
  unfolding requests_for
  requests_for_iff k [] w = (λ m. elim m [ ], λ h. elim h.among [ ])
  requests_for_iff k (p ∷ ps) w =
      let w' = (list p.meta.name w).1 in
      let same = (lists.list-Keeps p.meta.name).keeps w in
      let (split, join) =
        Memᴰ-append k (requests_of key (list p.meta.name w).0) (requests_for key list ps w').0 in
      let (of_rest, rest_of) = requests_for_iff k ps w' in
      (
        λ m. elim (split m) [
          | inl n ↦ requests_of-IsReached k p ps w n
          | inr n ↦
              let h = subst (λ v. IsReached v ps k) same (of_rest n) in
              among_others ps (p ∷ ps) h (Memᴰ.tail h.among)
        ],
        λ h. elim h.among [
          | Memᴰ.head e ↦ join (inl (IsReached-requests_of k p (p ∷ ps) w h e))
          | Memᴰ.tail m ↦ join (
              inr
                (rest_of (subst (λ v. IsReached v ps k) (sym same) (among_others (p ∷ ps) ps h m))))
        ],
      )
