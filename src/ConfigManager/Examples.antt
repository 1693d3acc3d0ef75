-- ===== src/ConfigManager/Examples.antt =====
-- Runs of the download of a rollout of src/api_manager/config_manager.cc, and a concrete case of its
-- theorem.
use esp.Base.{◌≡◌, refl, true, false, List, [], ◌∷◌, Str, bytes}
use esp.Base.Int.{ℤ, pos}
use esp.ConfigManager.{ConfigManager, Response, on_config, on_configs, new_fetch}
use esp.ConfigManager.Rollout.{on_configs_lem}

abbrev two_rollouts : List (Str × ℤ)
two_rollouts = (bytes "1", pos 30) ∷ (bytes "2", pos 70) ∷ []

abbrev second : Response
second = record { is_ok = true; config = bytes "c2"; percentage = pos 70 }

abbrev first : Response
first = record { is_ok = true; config = bytes "c1"; percentage = pos 30 }

abbrev manager : ConfigManager
manager = record { current_rollout_id = bytes "old"; applied = [] }

first_missing :
    (on_configs
      (second ∷ record first { is_ok = false } ∷ [])
      (new_fetch (bytes "new") two_rollouts)
      manager).1
    ≡ manager
unfolding on_configs on_config
first_missing = refl

on_configs_lem_example :
    (on_configs (second ∷ first ∷ []) (new_fetch (bytes "new") two_rollouts) manager).1 ≡ record {
      current_rollout_id = bytes "new";
      applied = ((bytes "c2", pos 70) ∷ (bytes "c1", pos 30) ∷ []) ∷ [];
    }
on_configs_lem_example = on_configs_lem second (first ∷ []) (bytes "new") two_rollouts manager refl
