-- ===== src/ApiManager/Added.antt =====
-- Lemmas on `AddConfig`: what it does to the contexts of a manager.
use esp.Base.{
  not_false, some_same, ℕ, ◌≡◌, inl, inr, refl, sym, ap, subst, ◌∙◌, Bool, true, false, Option,
  none, some, List, [], ◌∷◌, ◌++◌, Str, str_eq, str_eq_iff, str_eq_refl, is_empty, All, All-map,
  All-append, Bool-cases, Option-cases, if◌then◌else◌,
}
use esp.Base.Int.{ℤ}
use esp.ApiManager.{
  ServiceContext, ApiManager, find, Configs, checked, create, new_context, with_context,
  add_created, add_config, next_config, add_configs,
}

module _ {C : Type 0} (configs : Configs C) where
  -- How often the service control of a config is initialized.
  abbrev pub expected : Bool → C → ℕ
  expected initialized c =
      if initialized then (if configs.has_service_control c then 1 else 0) else 0

  -- A context under its id, of the service of the manager.
  abbrev pub IsContext : Bool → Str → Str × ServiceContext C → Type 0
  IsContext initialized service (id, c) =
      (configs.id c.config ≡ id)
      × (configs.name c.config ≡ service)
      × (c.inits ≡ expected initialized c.config)

  abbrev pub Knows : List (Str × ServiceContext C) → Str → Type 0
  Knows contexts id = (c : ServiceContext C) × (find id contexts ≡ some c)

  abbrev pub AreContexts : Bool → ApiManager C → Type 0
  AreContexts initialized m =
      All (IsContext initialized m.service_name) m.service_context_map
      × (is_empty m.service_name ≡ true → m.service_context_map ≡ [])

  abbrev pub Keeps : List (Str × ServiceContext C) → List (Str × ServiceContext C) → Type 0
  Keeps contexts more =
      (id : Str) (c : ServiceContext C) → find id contexts ≡ some c → find id more ≡ some c

  find-append :
      (id : Str) (contexts : List (Str × ServiceContext C)) (more : List (Str × ServiceContext C))
      (c : ServiceContext C)
      → find id contexts ≡ some c
      → find id (contexts ++ more) ≡ some c
  find-append id [] more c h = absurd cc
  find-append id ((key, d) ∷ contexts) more c h = elim (Bool-cases (str_eq key id)) [
    | inl p ↦ rw p (rw p at h)
    | inr p ↦ rw p (find-append id contexts more c (rw p at h))
  ]

  find-last :
      (id : Str) (contexts : List (Str × ServiceContext C)) (c : ServiceContext C)
      → find id contexts ≡ none
      → find id (contexts ++ ((id, c) ∷ [])) ≡ some c
  find-last id [] c h = rw str_eq_refl refl
  find-last id ((key, d) ∷ contexts) c h = elim (Bool-cases (str_eq key id)) [
    | inl p ↦ let e = rw p at h in absurd cc
    | inr p ↦ rw p (find-last id contexts c (rw p at h))
  ]

  new_context-inits :
      (initialize : Bool) (c : C) → (new_context configs initialize c).inits ≡ expected initialize c
  new_context-inits true c = elim (Bool-cases (configs.has_service_control c)) [
    | inl p ↦ rw p refl
    | inr p ↦ rw p refl
  ]
  new_context-inits false c = refl

  new_context-config : (initialize : Bool) (c : C) → (new_context configs initialize c).config ≡ c
  new_context-config true c = elim (Bool-cases (configs.has_service_control c)) [
    | inl p ↦ rw p refl
    | inr p ↦ rw p refl
  ]
  new_context-config false c = refl

  -- What adding a config does to the map.
  record IsExtended (initialize : Bool) (service : Str) (id : Str)
      (contexts more : List (Str × ServiceContext C)) : Type 0 where
    all : All (IsContext initialize service) more
    knows : Knows more id
    keeps : Keeps contexts more

  with_context_lem :
      (initialize : Bool) (c : C) (service : Str) (contexts : List (Str × ServiceContext C))
      → configs.name c ≡ service
      → All (IsContext initialize service) contexts
      → IsExtended initialize service
          (configs.id c)
          contexts
          (with_context configs initialize c contexts)
  with_context_lem initialize c service contexts named h =
      elim (Option-cases (find (configs.id c) contexts)) [
        | inl e ↦ rw e (record {
          all = All-append _ contexts _ h (
            (
              rw new_context-config refl,
              rw new_context-config named,
              new_context-inits initialize c
                  ∙ ap (expected initialize) (sym (new_context-config initialize c)),
            ),
            tt,
          );
          knows = (new_context configs initialize c, find-last (configs.id c) contexts _ e);
          keeps = λ id d p. find-append id contexts _ d p;
        })
        | inr (d, e) ↦ rw e (record { all = h; knows = (d, e); keeps = λ id c p. p })
      ]

  -- What adding configs does to a manager.
  pub record IsAdded (initialize : Bool) (m m' : ApiManager C) : Type 0 where
    pub contexts : AreContexts initialize m'
    pub keeps : Keeps m.service_context_map m'.service_context_map
    pub same : m'.service_selector ≡ m.service_selector

  checked_named :
      (o : Option C) (c : C) → checked configs o ≡ some c → is_empty (configs.name c) ≡ false
  checked_named none c h = absurd cc
  checked_named (some d) c h = elim (Bool-cases (is_empty (configs.name d))) [
    | inl p ↦ let e = rw p at h in absurd cc
    | inr p ↦ elim (Bool-cases (configs.loads d)) [
      | inl q ↦
          let e = rw (p, q) at h in ap (λ x. is_empty (configs.name x)) (sym (some_same e)) ∙ p
      | inr q ↦ let e = rw (p, q) at h in absurd cc
    ]
  ]

  named_of : (text : Str) (c : C) → create configs text ≡ some c → is_empty (configs.name c) ≡ false
  named_of text c h = elim (Bool-cases (is_empty text)) [
    | inl p ↦ let e = rw p at h in absurd cc
    | inr p ↦ checked_named (configs.read text) c (rw p at h)
  ]

  add_created_lem :
      (initialize : Bool) (c : C) (m : ApiManager C)
      → is_empty (configs.name c) ≡ false
      → AreContexts initialize m
      → let r = add_created configs initialize (some c) m in
        IsAdded initialize m r.0 × ((id : Str) → r.1 ≡ some id → Knows r.0.service_context_map id)
  add_created_lem initialize c m named (h, fresh) = elim (Bool-cases (is_empty m.service_name)) [
    | inl p ↦
        let none_yet : All (IsContext initialize (configs.name c)) m.service_context_map =
          rw (fresh p) tt in
        let e =
          with_context_lem initialize c (configs.name c) m.service_context_map refl none_yet in
        rw p (
          record {
            contexts = (e.all, λ q. absurd (not_false (sym q ∙ named)));
            keeps = e.keeps;
            same = refl;
          },
          λ id q. subst (Knows _) (some_same q) e.knows,
        )
    | inr p ↦ elim (Bool-cases (str_eq (configs.name c) m.service_name)) [
      | inl q ↦
          let e =
            with_context_lem initialize c m.service_name m.service_context_map
              ((str_eq_iff _ _).0 q) h in
          rw (p, q)
            (
              record {
                contexts = (e.all, λ r. absurd (not_false (sym r ∙ p)));
                keeps = e.keeps;
                same = refl;
              },
              λ id r. subst (Knows _) (some_same r) e.knows,
            )
      | inr q ↦
          rw (p, q)
            (record { contexts = (h, fresh); keeps = λ id d r. r; same = refl }, λ id r. absurd cc)
    ]
  ]

  pub IsAdded-trans :
      (initialize : Bool) (m m' m'' : ApiManager C)
      → IsAdded initialize m m'
      → IsAdded initialize m' m''
      → IsAdded initialize m m''
  IsAdded-trans initialize m m' m'' h k = record {
    contexts = k.contexts;
    keeps = λ id c p. k.keeps id c (h.keeps id c p);
    same = k.same ∙ h.same;
  }

  add_config_lem :
      (text : Str) (initialize : Bool) (m : ApiManager C)
      → AreContexts initialize m
      → let r = add_config configs text initialize m in
        IsAdded initialize m r.0 × ((id : Str) → r.1 ≡ some id → Knows r.0.service_context_map id)
  unfolding add_config
  add_config_lem text initialize m h = go (create configs text) refl
    where
      go :
          (o : Option C)
          → create configs text ≡ o
          → let r = add_created configs initialize o m in
            IsAdded initialize m r.0
            × ((id : Str) → r.1 ≡ some id → Knows r.0.service_context_map id)
      go none e = (record { contexts = h; keeps = λ id c p. p; same = refl }, λ id q. absurd cc)
      go (some c) e = add_created_lem initialize c m (named_of text c e) h

  -- The list that is deployed, each config with a context.
  abbrev pub AllKnown : Bool → ApiManager C → ApiManager C × Option (List (Str × ℤ)) → Type 0
  AllKnown initialize m r =
      IsAdded initialize m r.0
      × ((l : List (Str × ℤ)) → r.1 ≡ some l → All (λ item. Knows r.0.service_context_map item.0) l)

  pub add_configs_lem :
      (list : List (Str × ℤ)) (initialize : Bool) (done : List (Str × ℤ)) (m : ApiManager C)
      → AreContexts initialize m
      → All (λ item. Knows m.service_context_map item.0) done
      → AllKnown initialize m (add_configs configs list initialize done m)
  unfolding add_configs
  add_configs_lem [] initialize done m h known = (
    record { contexts = h; keeps = λ id c p. p; same = refl },
    λ l e. subst (All (λ item. Knows m.service_context_map item.0)) (some_same e) known,
  )
  add_configs_lem ((text, percentage) ∷ rest) initialize done m h known =
      go (add_configs_lem rest initialize) (add_config configs text initialize m)
        (add_config_lem text initialize m h)
    where
      go :
          ((list : List (Str × ℤ)) (n : ApiManager C)
            → AreContexts initialize n
            → All (λ item. Knows n.service_context_map item.0) list
            → AllKnown initialize n (add_configs configs rest initialize list n))
          → (r : ApiManager C × Option Str)
          → IsAdded initialize m r.0
            × ((id : Str) → r.1 ≡ some id → Knows r.0.service_context_map id)
          → AllKnown initialize m
              (next_config configs (add_configs configs rest initialize) percentage done r)
      go again (m', none) (k, knows) = (k, λ l e. absurd cc)
      go again (m', some id) (k, knows) =
          let now =
            All-append (λ item. Knows m'.service_context_map item.0) done ((id, percentage) ∷ [])
              (All-map _ _ done (λ item (c, e). (c, k.keeps item.0 c e)) known)
              (knows id refl, tt) in
          let (more, all) = again (done ++ ((id, percentage) ∷ [])) m' k.contexts now in
          (IsAdded-trans initialize m m' _ k more, all)
