-- ===== src/ConfigManager.antt =====
-- The download of the configs of a rollout in src/api_manager/config_manager.cc: the callback of each
-- config, and the update of the proxy when the last one is in. The order in which the callbacks come
-- is the order of a list of responses; scheduling, the requests and logging are left out.
pub mod Rollout
pub mod Examples
use esp.Base.{
  ℕ, zero, suc, ◌+◌, Bool, true, false, not, ◌||◌, List, [], ◌∷◌, ◌++◌, Str, length, is_empty, ◌==◌,
  if◌then◌else◌,
}
use esp.Base.Int.{ℤ}

-- `ConfigsFetchInfo`.
pub record ConfigsFetchInfo : Type 0 where
  pub rollout_id : Str
  pub rollouts : List (Str × ℤ)
  pub configs : List (Str × ℤ)
  pub finished : ℕ

-- The rollout that is in use, and the arguments of the calls of `rollout_apply_function_` so far.
pub record ConfigManager : Type 0 where
  pub current_rollout_id : Str
  pub applied : List (List (Str × ℤ))

-- An answer to `GetConfig`: whether its status is ok, the config, and the percentage that the
-- callback was made with.
pub record Response : Type 0 where
  pub is_ok : Bool
  pub config : Str
  pub percentage : ℤ

abbrev pub fetched : Response → Str × ℤ
fetched r = (r.config, r.percentage)

-- `IsCompleted`.
abbrev pub is_completed : ConfigsFetchInfo → Bool
is_completed info = info.finished == length info.rollouts

-- The configs after a response, and the count of responses.
abbrev pub with_response : Response → ConfigsFetchInfo → ConfigsFetchInfo
with_response r info = record info {
  configs = if r.is_ok then info.configs ++ (fetched r ∷ []) else info.configs;
  finished = info.finished + 1;
}

-- What the callback that completes the download does.
abbrev pub complete : ConfigsFetchInfo → ConfigManager → ConfigsFetchInfo × ConfigManager
complete info m =
    if is_empty info.rollouts
      || (is_empty info.configs || not (length info.rollouts == length info.configs))
    then (info, m)
    else (
      record info { configs = [] },
      record { current_rollout_id = info.rollout_id; applied = m.applied ++ (info.configs ∷ []) },
    )

-- The callback of `FetchConfigs`.
pub on_config : Response → ConfigsFetchInfo → ConfigManager → ConfigsFetchInfo × ConfigManager
on_config r info m =
    let next = with_response r info in if is_completed next then complete next m else (next, m)

-- All callbacks of `FetchConfigs`.
pub on_configs : List Response → ConfigsFetchInfo → ConfigManager → ConfigsFetchInfo × ConfigManager
on_configs [] info m = (info, m)
on_configs (r ∷ rs) info m = let after = on_config r info m in on_configs rs after.0 after.1

abbrev pub new_fetch : Str → List (Str × ℤ) → ConfigsFetchInfo
new_fetch rollout_id rollouts = record {
  rollout_id = rollout_id;
  rollouts = rollouts;
  configs = [];
  finished = 0;
}
