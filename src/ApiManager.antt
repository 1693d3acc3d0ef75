-- ===== src/ApiManager.antt =====
-- The deployment of service configs in src/api_manager/api_manager_impl.cc, with the check of the
-- name of a service in config.cc. The files, the other steps that make a config of its text, and
-- whether a config has a service control are parameters; logging and the other calls of the service
-- control are left out.
pub mod Added
pub mod Loaded
pub mod Deployed
mod Examples
use esp.Base.{
  ℕ, zero, suc, ◌+◌, Bool, true, false, ◌||◌, Option, none, some, List, [], ◌∷◌, ◌++◌, map, Str,
  bytes, str_eq, is_empty, if◌then◌else◌,
}
use esp.Base.Int.{ℤ, pos}
use esp.StatusCode.Code
use esp.StatusCode.Names.{Status, is_ok, ok_status, internal}
use esp.WeightedSelector.{WeightedSelector, new_selector, select}

-- A config, and how often `Init` of its service control was called.
pub record ServiceContext (C : Type 0) : Type 0 where
  pub config : C
  pub inits : ℕ

pub record ApiManager (C : Type 0) : Type 0 where
  pub service_name : Str
  pub service_context_map : List (Str × ServiceContext C)
  pub service_selector : Option WeightedSelector

abbrev pub new_manager : {C : Type 0} → ApiManager C
new_manager = record { service_name = []; service_context_map = []; service_selector = none }

abbrev pub find : {C : Type 0} → Str → List (Str × ServiceContext C) → Option (ServiceContext C)
find id [] = none
find id ((key, c) ∷ contexts) =
    let rest = find id contexts in if str_eq key id then some c else rest

abbrev pub error : ℕ → Str → Status
error code message = record { code = pos code; message = message; error_cause = internal }

abbrev pub invalid_config : Str
invalid_config = bytes "Invalid service config"

-- What is known of configs.
pub record Configs (C : Type 0) : Type 0 where
  pub read : Str → Option C
  pub loads : C → Bool
  pub name : C → Str
  pub id : C → Str
  pub has_service_control : C → Bool

module _ {C : Type 0} (configs : Configs C) where
  -- `Config::Create`, with `LoadService`.
  abbrev pub checked : Option C → Option C
  checked none = none
  checked (some c) =
      if is_empty (configs.name c) then none else (if configs.loads c then some c else none)

  abbrev pub create : Str → Option C
  create text = if is_empty text then none else checked (configs.read text)

  abbrev pub init : ServiceContext C → ServiceContext C
  init c = if configs.has_service_control c.config then record c { inits = c.inits + 1 } else c

  abbrev pub new_context : Bool → C → ServiceContext C
  new_context initialize c =
      let context : ServiceContext C = record { config = c; inits = 0 } in
      if initialize then init context else context

  abbrev pub add_missing :
      Bool
      → C
      → List (Str × ServiceContext C)
      → Option (ServiceContext C)
      → List (Str × ServiceContext C)
  add_missing initialize c contexts (some context) = contexts
  add_missing initialize c contexts none =
      contexts ++ ((configs.id c, new_context initialize c) ∷ [])

  -- The map after a config; it keeps a context that is there.
  abbrev pub with_context : Bool → C → List (Str × ServiceContext C) → List (Str × ServiceContext C)
  with_context initialize c contexts =
      add_missing initialize c contexts (find (configs.id c) contexts)

  abbrev pub add_created : Bool → Option C → ApiManager C → ApiManager C × Option Str
  add_created initialize none m = (m, none)
  add_created initialize (some c) m =
      let named = record m {
        service_name = if is_empty m.service_name then configs.name c else m.service_name;
      } in
      if is_empty m.service_name || str_eq (configs.name c) m.service_name
      then (
        record named { service_context_map = with_context initialize c m.service_context_map },
        some (configs.id c),
      )
      else (m, none)

  -- `AddConfig`: the id of the config, and `none` where its status is not OK.
  unfoldable pub add_config : Str → Bool → ApiManager C → ApiManager C × Option Str
  add_config text initialize m = add_created initialize (create text) m

  -- The rest of the loop after a config.
  abbrev pub next_config :
      (List (Str × ℤ) → ApiManager C → ApiManager C × Option (List (Str × ℤ)))
      → ℤ
      → List (Str × ℤ)
      → ApiManager C × Option Str
      → ApiManager C × Option (List (Str × ℤ))
  next_config rest percentage list (m, none) = (m, none)
  next_config rest percentage list (m, some id) = rest (list ++ ((id, percentage) ∷ [])) m

  -- The loop over the configs, with what is in `list`.
  unfoldable pub add_configs :
      List (Str × ℤ) → Bool → List (Str × ℤ) → ApiManager C → ApiManager C × Option (List (Str × ℤ))
  add_configs [] initialize list m = (m, some list)
  add_configs ((text, percentage) ∷ rest) initialize list m =
      next_config (add_configs rest initialize) percentage list (add_config text initialize m)

  -- `DeployConfigs`.
  abbrev pub deploy_configs : List (Str × ℤ) → ApiManager C → ApiManager C
  deploy_configs list m = record m { service_selector = some (new_selector list) }

  abbrev pub deploy_added : ApiManager C × Option (List (Str × ℤ)) → ApiManager C × Status
  deploy_added (m, none) = (m, error Code.aborted invalid_config)
  deploy_added (m, some []) = (m, error Code.aborted invalid_config)
  deploy_added (m, some (item ∷ list)) = (deploy_configs (item ∷ list) m, ok_status)

  -- `AddAndDeployConfigs`.
  unfoldable pub add_and_deploy_configs :
      List (Str × ℤ) → Bool → ApiManager C → ApiManager C × Status
  add_and_deploy_configs list initialize m = deploy_added (add_configs list initialize [] m)

  -- The loop over the files of the configs; `none` where one is not there.
  abbrev pub with_file : ℤ → Option Str → Option (List (Str × ℤ)) → Option (List (Str × ℤ))
  with_file percentage none list = none
  with_file percentage (some text) none = none
  with_file percentage (some text) (some list) = some ((text, percentage) ∷ list)

  pub read_files : (Str → Option Str) → List (Str × ℤ) → Option (List (Str × ℤ))
  read_files files [] = some []
  read_files files ((path, percentage) ∷ rest) =
      with_file percentage (files path) (read_files files rest)

  abbrev pub deploy_files : Option (List (Str × ℤ)) → ApiManager C → ApiManager C × Status
  deploy_files (some (item ∷ list)) m = add_and_deploy_configs (item ∷ list) false m
  deploy_files _ m = (record m { service_context_map = [] }, error Code.aborted invalid_config)

  -- `LoadServiceRollouts`, at the percentages of the server config, which are rounded.
  unfoldable pub load_service_rollouts :
      (Str → Option Str) → Option (List (Str × ℤ)) → ApiManager C → ApiManager C × Status
  load_service_rollouts files none m = (m, error Code.aborted (bytes "Invalid server config"))
  load_service_rollouts files (some []) m =
      (m, error Code.aborted (bytes "Service config was not specified"))
  load_service_rollouts files (some (item ∷ rest)) m =
      deploy_files (read_files files (item ∷ rest)) m

  abbrev pub init_item : Str × ServiceContext C → Str × ServiceContext C
  init_item (id, c) = (id, init c)

  -- `Init`, without the timers.
  unfoldable pub init_all : ApiManager C → ApiManager C × Status
  init_all m =
      if is_empty m.service_context_map
      then (m, error Code.unavailable (bytes "Service config loading was failed"))
      else (record m { service_context_map = map init_item m.service_context_map }, ok_status)

  -- The callback of the config manager.
  abbrev pub apply_rollout : Status → List (Str × ℤ) → ApiManager C → ApiManager C
  apply_rollout status list m =
      let deployed = (add_and_deploy_configs list true m).0 in if is_ok status then deployed else m

-- `SelectService`. The outer `none` is the use of a null pointer, the inner one the null pointer that
-- is returned.
module _ {C : Type 0} (is_less : ℕ × ℤ → ℕ × ℤ → Bool) where
  abbrev pub selected :
      ApiManager C → Option WeightedSelector → Option (ApiManager C × Option (ServiceContext C))
  selected m none = none
  selected m (some s) =
      let (id, s') = select is_less s in
      some (record m { service_selector = some s' }, find id m.service_context_map)

  unfoldable pub select_service : ApiManager C → Option (ApiManager C × Option (ServiceContext C))
  select_service m =
      if is_empty m.service_context_map then some (m, none) else selected m m.service_selector
