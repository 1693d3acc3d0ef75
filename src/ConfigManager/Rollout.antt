-- ===== src/ConfigManager/Rollout.antt =====
-- The callbacks of the download of a rollout, from the first response to the last.
use esp.Base.{
  ◌+◌, ◌≤◌, ◌<◌, ◌≡◌, ◌⊎◌, ◌∙◌, ap, ap₂, Bool, true, false, ◌&&◌, List, [], ◌∷◌, ◌++◌, Str, length,
  length-append, append_assoc, map, ◌==◌, if◌then◌else◌, Bool-cases, inl, inr, arith,
}
use esp.Base.Int.{ℤ}
use esp.ConfigManager.{
  ConfigsFetchInfo, ConfigManager, Response, fetched, with_response, on_config, on_configs,
  new_fetch,
}

abbrev pub all_ok : List Response → Bool
all_ok [] = true
all_ok (r ∷ rs) = r.is_ok && all_ok rs

-- The manager after a rollout with these configs.
abbrev pub applied_with : Str → List (Str × ℤ) → ConfigManager → ConfigManager
applied_with rollout_id configs m = record {
  current_rollout_id = rollout_id;
  applied = m.applied ++ (configs ∷ []);
}

last_config :
    (r : Response) (info : ConfigsFetchInfo) (m : ConfigManager)
    → length info.configs ≤ info.finished
    → info.finished + 1 ≡ length info.rollouts
    → (on_config r info m).1 ≡ (
        if r.is_ok && (length info.configs == info.finished)
        then applied_with info.rollout_id (info.configs ++ (fetched r ∷ [])) m
        else m)
unfolding on_config
last_config r info m few last = ground (arith, length-append info.configs (fetched r ∷ []))

early_config :
    (r : Response) (info : ConfigsFetchInfo) (m : ConfigManager)
    → info.finished + 1 < length info.rollouts
    → on_config r info m ≡ (with_response r info, m)
unfolding on_config
early_config r info m early = ground arith

on_configs_from :
    (r : Response) (rs : List Response) (info : ConfigsFetchInfo) (m : ConfigManager)
    → length info.configs ≤ info.finished
    → info.finished + length (r ∷ rs) ≡ length info.rollouts
    → (on_configs (r ∷ rs) info m).1 ≡ (
        if all_ok (r ∷ rs) && (length info.configs == info.finished)
        then applied_with info.rollout_id (info.configs ++ map fetched (r ∷ rs)) m
        else m)
unfolding on_configs
on_configs_from r [] info m few whole =
    let last = last_config r info m few whole in ground (arith, last)
on_configs_from r (s ∷ rs) info m few whole =
    let early : on_config r info m ≡ (with_response r info, m) =
      early_config r info m (omega arith) in
    let few' : length (with_response r info).configs ≤ info.finished + 1 =
      ground (arith, length-append info.configs (fetched r ∷ [])) in
    let ih = on_configs_from s rs (with_response r info) m few' (omega arith) in
    ap (λ (p : ConfigsFetchInfo × ConfigManager). (on_configs (s ∷ rs) p.0 p.1).1) early
    ∙ ih
    ∙ regroup (Bool-cases r.is_ok)
  where
    regroup :
        (r.is_ok ≡ true) ⊎ (r.is_ok ≡ false)
        → (if all_ok (s ∷ rs) && (length (with_response r info).configs == info.finished + 1)
            then applied_with info.rollout_id
                ((with_response r info).configs ++ map fetched (s ∷ rs))
                m
            else m)
          ≡ (if all_ok (r ∷ s ∷ rs) && (length info.configs == info.finished)
              then applied_with info.rollout_id (info.configs ++ map fetched (r ∷ s ∷ rs)) m
              else m)
    regroup (inl good) =
        let same : (length (info.configs ++ (fetched r ∷ [])) == info.finished + 1)
            ≡ (length info.configs == info.finished) =
          ground (arith, length-append info.configs (fetched r ∷ [])) in
        rw good (
          ap₂
            (λ (cs : List (Str × ℤ)) (b : Bool).
              if all_ok (s ∷ rs) && b then applied_with info.rollout_id cs m else m)
            (append_assoc info.configs (fetched r ∷ []) (map fetched (s ∷ rs))) same)
    regroup (inr bad) = rw bad (ground arith)

-- Once every config of a rollout is answered, in whatever order: where all answers are ok, the
-- configs are applied once, with their percentages, and the rollout is the current one; where any
-- is not, nothing is applied and the current rollout stays.
pub on_configs_lem :
    (r : Response) (rs : List Response) (rollout_id : Str) (rollouts : List (Str × ℤ))
    (m : ConfigManager)
    → length (r ∷ rs) ≡ length rollouts
    → (on_configs (r ∷ rs) (new_fetch rollout_id rollouts) m).1
      ≡ (if all_ok (r ∷ rs) then applied_with rollout_id (map fetched (r ∷ rs)) m else m)
on_configs_lem r rs rollout_id rollouts m whole =
    on_configs_from r rs (new_fetch rollout_id rollouts) m (omega arith) (omega arith)
    ∙ ap (λ b. if b then applied_with rollout_id (map fetched (r ∷ rs)) m else m) (ground arith)
