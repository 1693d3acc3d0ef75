-- ===== src/ApiManager/Loaded.antt =====
-- Lemmas on the states of a manager: what a deployment, the loading of the files and the
-- initialization leave.
use esp.Base.{
  some_same, ℕ, ◌≡◌, ◌⊎◌, inl, inr, refl, ap, ◌∙◌, Bool, true, false, Option, none, some, List, [],
  ◌∷◌, map, Str, str_eq, is_empty, All, All-map, Bool-cases,
}
use esp.Base.Int.{ℤ}
use esp.StatusCode.Code
use esp.StatusCode.Names.{is_ok}
use esp.WeightedSelector.{WeightedSelector, new_selector, select}
use esp.WeightedSelector.Range.{All-select}
use esp.ApiManager.{
  ServiceContext, ApiManager, new_manager, find, Configs, init, add_configs, deploy_added,
  add_and_deploy_configs, read_files, deploy_files, load_service_rollouts, init_item, init_all,
  error, invalid_config,
}
use esp.ApiManager.Added.{IsContext, Knows, AreContexts, IsAdded, AllKnown, add_configs_lem}

aborted_not_ok : (message : Str) → ¬ (is_ok (error Code.aborted message) ≡ true)
unfolding is_ok
aborted_not_ok message e = cc

module _ {C : Type 0} (configs : Configs C) (is_less : ℕ × ℤ → ℕ × ℤ → Bool) where
  -- The selector selects among configs that have a context.
  pub record IsDeployed (m : ApiManager C) (s : WeightedSelector) : Type 0 where
    pub deployed : m.service_selector ≡ some s
    pub nonempty : is_empty s.list ≡ false
    pub known : All (λ item. Knows configs m.service_context_map item.0) s.list

  abbrev pub IsServing : Bool → ApiManager C → Type 0
  IsServing initialized m =
      AreContexts configs initialized m × ((s : WeightedSelector) × IsDeployed m s)

  -- A deployment, where the rollout is taken or not.
  pub deploy_lem :
      (list : List (Str × ℤ)) (initialize : Bool) (m : ApiManager C)
      → AreContexts configs initialize m
      → (is_ok (add_and_deploy_configs configs list initialize m).1 ≡ true)
        ⊎ ((s : WeightedSelector) × IsDeployed m s)
      → IsServing initialize (add_and_deploy_configs configs list initialize m).0
  unfolding add_and_deploy_configs
  deploy_lem list initialize m h before =
      go (add_configs configs list initialize [] m)
        (add_configs_lem configs list initialize [] m h tt) before
    where
      go_on :
          (m' : ApiManager C)
          → IsAdded configs initialize m m'
          → (is_ok (error Code.aborted invalid_config) ≡ true)
            ⊎ ((s : WeightedSelector) × IsDeployed m s)
          → IsServing initialize m'
      go_on m' k (inl e) = absurd (aborted_not_ok _ e)
      go_on m' k (inr (s, d)) = (
        k.contexts,
        (
          s,
          record {
            deployed = k.same ∙ d.deployed;
            nonempty = d.nonempty;
            known = All-map _ _ s.list (λ item p. (p.0, k.keeps item.0 p.0 p.1)) d.known;
          },
        ),
      )

      go :
          (r : ApiManager C × Option (List (Str × ℤ)))
          → AllKnown configs initialize m r
          → (is_ok (deploy_added configs r).1 ≡ true) ⊎ ((s : WeightedSelector) × IsDeployed m s)
          → IsServing initialize (deploy_added configs r).0
      go (m', none) (k, all) before = go_on m' k before
      go (m', some []) (k, all) before = go_on m' k before
      go (m', some (item ∷ l)) (k, all) before = (
        k.contexts,
        (
          new_selector (item ∷ l),
          record { deployed = refl; nonempty = refl; known = all (item ∷ l) refl },
        ),
      )

  pub load_lem :
      (files : Str → Option Str) (percentages : Option (List (Str × ℤ)))
      → is_ok (load_service_rollouts configs files percentages new_manager).1 ≡ true
      → IsServing false (load_service_rollouts configs files percentages new_manager).0
  unfolding load_service_rollouts
  load_lem files none h = absurd (aborted_not_ok _ h)
  load_lem files (some []) h = absurd (aborted_not_ok _ h)
  load_lem files (some (item ∷ rest)) h = go (read_files configs files (item ∷ rest)) h
    where
      go :
          (o : Option (List (Str × ℤ)))
          → is_ok (deploy_files configs o new_manager).1 ≡ true
          → IsServing false (deploy_files configs o new_manager).0
      go none h = absurd (aborted_not_ok _ h)
      go (some []) h = absurd (aborted_not_ok _ h)
      go (some (item ∷ l)) h = deploy_lem (item ∷ l) false new_manager (tt, λ e. refl) (inl h)

  find-init_item :
      (id : Str) (contexts : List (Str × ServiceContext C)) (c : ServiceContext C)
      → find id contexts ≡ some c
      → find id (map (init_item configs) contexts) ≡ some (init configs c)
  find-init_item id [] c h = absurd cc
  find-init_item id ((key, d) ∷ contexts) c h = elim (Bool-cases (str_eq key id)) [
    | inl p ↦ rw p (ap (λ x. some (init configs x)) (some_same (rw p at h)))
    | inr p ↦ rw p (find-init_item id contexts c (rw p at h))
  ]

  init_item-IsContext :
      (service : Str) (id : Str) (c : ServiceContext C)
      → IsContext configs false service (id, c)
      → IsContext configs true service (id, init configs c)
  init_item-IsContext service id c (same, named, fresh) =
      elim (Bool-cases (configs.has_service_control c.config)) [
        | inl p ↦ rw p (same, named, rw (fresh, p) refl)
        | inr p ↦ rw p (same, named, rw p fresh)
      ]

  inited :
      (service : Str) (contexts : List (Str × ServiceContext C))
      → All (IsContext configs false service) contexts
      → All (IsContext configs true service) (map (init_item configs) contexts)
  inited service [] h = h
  inited service ((id, c) ∷ contexts) (p, h) =
      (init_item-IsContext service id c p, inited service contexts h)

  pub found_nonempty :
      (id : Str) (contexts : List (Str × ServiceContext C)) {c : ServiceContext C}
      → find id contexts ≡ some c
      → is_empty contexts ≡ false
  found_nonempty id [] h = cc
  found_nonempty id (x ∷ contexts) h = refl

  -- The name that is selected is that of a context.
  pub selects :
      (m : ApiManager C) (s : WeightedSelector)
      → IsDeployed m s
      → Knows configs m.service_context_map (select is_less s).0
  selects m s d = All-select is_less (Knows configs m.service_context_map) s d.nonempty d.known

  pub init_all_lem : (m : ApiManager C) → IsServing false m → IsServing true (init_all configs m).0
  unfolding init_all
  init_all_lem m ((all, fresh), (s, d)) = rw (found_nonempty _ _ (selects m s d).1) (
    (inited m.service_name m.service_context_map all, λ e. ap (map (init_item configs)) (fresh e)),
    (
      s,
      record {
        deployed = d.deployed;
        nonempty = d.nonempty;
        known =
            All-map _ _ s.list
              (λ item p. (init configs p.0, find-init_item item.0 m.service_context_map p.0 p.1))
              d.known;
      },
    ),
  )
