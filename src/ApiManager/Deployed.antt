-- ===== src/ApiManager/Deployed.antt =====
-- The states of a manager that runs: it is loaded with OK and initialized, and takes rollouts and
-- requests in any order.
use esp.Base.{
  some_same, ℕ, ◌≡◌, inl, inr, refl, sym, ap, subst, ◌∙◌, Bool, true, Option, some, List, [], ◌∷◌,
  Str, str_eq, All, Bool-cases, if◌then◌else◌,
}
use esp.Base.Int.{ℤ}
use esp.StatusCode.Names.{Status, is_ok}
use esp.WeightedSelector.{select}
use esp.WeightedSelector.Range.{select-list}
use esp.ApiManager.{
  ServiceContext, ApiManager, new_manager, find, Configs, load_service_rollouts, init_all,
  apply_rollout, select_service,
}
use esp.ApiManager.Added.{expected, IsContext}
use esp.ApiManager.Loaded.{IsServing, deploy_lem, load_lem, found_nonempty, selects, init_all_lem}

module _ {C : Type 0} (configs : Configs C) (is_less : ℕ × ℤ → ℕ × ℤ → Bool) where
  -- A manager that runs.
  pub data Running : ApiManager C → Type 0 where
    started :
        (files : Str → Option Str) (percentages : Option (List (Str × ℤ)))
        → is_ok (load_service_rollouts configs files percentages new_manager).1 ≡ true
        → Running
            (init_all configs (load_service_rollouts configs files percentages new_manager).0).0
    deployed :
        (m : ApiManager C) (status : Status) (list : List (Str × ℤ))
        → Running m
        → Running (apply_rollout configs status list m)
    served :
        (m m' : ApiManager C) (c : Option (ServiceContext C))
        → Running m
        → select_service is_less m ≡ some (m', c)
        → Running m'

  found-All :
      (service id : Str) (contexts : List (Str × ServiceContext C)) (c : ServiceContext C)
      → All (IsContext configs true service) contexts
      → find id contexts ≡ some c
      → (configs.name c.config ≡ service) × (c.inits ≡ expected configs true c.config)
  found-All service id [] c h e = absurd cc
  found-All service id ((key, d) ∷ contexts) c (p, h) e = elim (Bool-cases (str_eq key id)) [
    | inl q ↦
        subst (λ x. (configs.name x.config ≡ service) × (x.inits ≡ expected configs true x.config))
          (some_same (rw q at e)) (p.1, p.2)
    | inr q ↦ found-All service id contexts c h (rw q at e)
  ]

  -- A request of a manager that serves.
  select_lem :
      (m : ApiManager C)
      → IsServing configs is_less true m
      → (c : ServiceContext C) × (m' : ApiManager C) × (select_service is_less m
          ≡ some (m', some c))
        × IsServing configs is_less true m'
        × (configs.name c.config ≡ m.service_name)
        × (c.inits ≡ expected configs true c.config)
  unfolding select_service
  select_lem m ((all, fresh), (s, d)) =
      let (c, e) = selects configs is_less m s d in
      (
        c,
        record m { service_selector = some (select is_less s).1 },
        rw (found_nonempty configs is_less _ _ e, d.deployed, e) refl,
        (
          (all, fresh),
          (
            (select is_less s).1,
            record {
              deployed = refl;
              nonempty = rw (select-list is_less s) d.nonempty;
              known = rw (select-list is_less s) d.known;
            },
          ),
        ),
        (found-All m.service_name _ m.service_context_map c all e).0,
        (found-All m.service_name _ m.service_context_map c all e).1,
      )

  Running-IsServing : (m : ApiManager C) → Running m → IsServing configs is_less true m
  Running-IsServing _ (started files percentages ok) =
      init_all_lem configs is_less _ (load_lem configs is_less files percentages ok)
  Running-IsServing _ (deployed m status list r) =
      let h = Running-IsServing m r in
      elim (Bool-cases (is_ok status)) [
        | inl p ↦ rw p (deploy_lem configs is_less list true m h.0 (inr h.1))
        | inr p ↦ rw p h
      ]
  Running-IsServing m' (served m _ c r e) =
      let (c', n, e', h, _, _) = select_lem m (Running-IsServing m r) in
      subst (IsServing configs is_less true) (ap (λ x. x.0) (some_same (sym e' ∙ e))) h

  -- A manager that runs gives every request a context, whatever the comparison of scores: no null
  -- pointer is used or returned. Its config is of the service of the manager, and its service
  -- control, where it has one, was initialized once.
  pub Running-serves :
      (m : ApiManager C)
      → Running m
      → (c : ServiceContext C) × (m' : ApiManager C) × (select_service is_less m
          ≡ some (m', some c))
        × (configs.name c.config ≡ m.service_name)
        × (c.inits ≡ (if configs.has_service_control c.config then 1 else 0))
  Running-serves m r =
      let (c, m', e, h, named, once) = select_lem m (Running-IsServing m r) in
      (c, m', e, named, once)
