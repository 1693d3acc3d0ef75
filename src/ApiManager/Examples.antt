-- ===== src/ApiManager/Examples.antt =====
-- A manager of two configs of one service.
use esp.Base.{
  ℕ, ◌≡◌, refl, Bool, true, false, Option, none, some, [], ◌∷◌, Str, bytes, is_empty, if◌then◌else◌,
}
use esp.Base.Int.{ℤ, pos}
use esp.StatusCode.Names.{is_ok, ok_status}
use esp.ApiManager.{
  ServiceContext, ApiManager, new_manager, Configs, add_config, add_configs, add_and_deploy_configs,
  load_service_rollouts, init_all, apply_rollout, select_service, read_files,
}
use esp.ApiManager.Deployed.{started, deployed, Running-serves}

abbrev never_less : ℕ × ℤ → ℕ × ℤ → Bool
never_less s t = false

-- A config that is the text of its id, of the service `s`.
abbrev plain : Configs Str
plain = record {
  read = λ text. some text;
  loads = λ c. true;
  name = λ c. bytes "s";
  id = λ c. c;
  has_service_control = λ c. true;
}

abbrev files : Str → Option Str
files path = if is_empty path then none else some path

abbrev loaded : ApiManager Str
loaded = (load_service_rollouts plain files (some ((bytes "a", pos 100) ∷ [])) new_manager).0

-- Files that are loaded with OK, and one that is not there.
loads_ok :
    is_ok (load_service_rollouts plain files (some ((bytes "a", pos 100) ∷ [])) new_manager).1
    ≡ true
unfolding load_service_rollouts add_and_deploy_configs add_configs add_config is_ok read_files
loads_ok = refl

missing_file :
    is_ok (load_service_rollouts plain files (some (([], pos 100) ∷ [])) new_manager).1 ≡ false
unfolding load_service_rollouts add_and_deploy_configs add_configs add_config is_ok read_files
missing_file = refl

abbrev running : ApiManager Str
running =
    apply_rollout plain ok_status ((bytes "a", pos 50) ∷ (bytes "b", pos 50) ∷ [])
      (init_all plain loaded).0

Running-serves_example :
    (c : ServiceContext Str) × (m' : ApiManager Str) × (select_service never_less running
      ≡ some (m', some c))
    × (bytes "s" ≡ running.service_name)
    × (c.inits ≡ 1)
Running-serves_example = Running-serves plain never_less running (
    deployed (init_all plain loaded).0 ok_status ((bytes "a", pos 50) ∷ (bytes "b", pos 50) ∷ [])
      (started files (some ((bytes "a", pos 100) ∷ [])) loads_ok))
