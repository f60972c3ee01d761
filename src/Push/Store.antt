-- ===== src/Push/Store.antt =====
-- The in-memory store of push configurations, a2asrv/push/store.go. Each call runs under the
-- store's lock. `url.ParseRequestURI`, the new IDs of the uuid package and `utils.DeepCopy` are
-- parameters; a map's iteration order is the order of the association list.
use a2a_go.Base.{
  ℕ, String, Bool, ◌&&◌, not, Option, none, some, List, [], ◌∷◌, length, if◌then◌else◌, leb,
  is_some, str_eq, Result, ok, err, ◌>>=◌, invalid_params, push_config_not_found,
}
use a2a_go.Base.Maps.{GoMap, lookup, insert, remove}

-- `a2a.PushAuthInfo`
pub record PushAuthInfo : Type 0 where
  pub credentials : String
  pub scheme : String

-- `a2a.PushConfig`
pub record PushConfig : Type 0 where
  pub tenant : String
  pub id : String
  pub task_id : String
  pub auth : Option PushAuthInfo
  pub token : String
  pub url : String

-- the map of one task, empty if there is none
abbrev pub or_empty : Option (GoMap PushConfig) → GoMap PushConfig
or_empty none = []
or_empty (some configs) = configs

-- `InMemoryPushConfigStore`, its map
abbrev pub Configs : Type 0
Configs = GoMap (GoMap PushConfig)

abbrev pub max_push_configs_per_task : ℕ
max_push_configs_per_task = 50

-- the saved copy with its IDs
abbrev pub identify : String → String → PushConfig → PushConfig
identify fresh task_id c = record c {
  id = if str_eq c.id "" then fresh else c.id;
  task_id = task_id;
}

-- `validateConfig` of a config that is not nil
unfoldable pub validate_config : (String → Bool) → PushConfig → Result (Unit {0})
validate_config parses c =
    if str_eq c.url ""
    then err invalid_params
    else if parses c.url
    then ok tt
    else err invalid_params

module _ (deep_copy : PushConfig → Result PushConfig) where
  -- the guard on the number and the write of `Save`
  unfoldable pub put : String → PushConfig → Configs → Result PushConfig × Configs
  put task_id c s =
      let configs = or_empty (lookup task_id s) in
      if not (is_some (lookup c.id configs)) && leb max_push_configs_per_task (length configs)
      then (err invalid_params, insert task_id configs s)
      else (deep_copy c, insert task_id (insert c.id c configs) s)

  put_copy : String → String → Configs → Result PushConfig → Result PushConfig × Configs
  put_copy fresh task_id s (err e) = (err e, s)
  put_copy fresh task_id s (ok c) = put task_id (identify fresh task_id c) s

  module _ (parses : String → Bool) where
    save_valid :
        String → String → PushConfig → Configs → Result (Unit {0}) → Result PushConfig × Configs
    unfolding put_copy
    save_valid fresh task_id c s (err e) = (err e, s)
    save_valid fresh task_id c s (ok _) = put_copy fresh task_id s (deep_copy c)

    -- `Save`, with the ID that `newID` gives
    unfoldable pub save :
        String → String → Option PushConfig → Configs → Result PushConfig × Configs
    unfolding save_valid
    save fresh task_id none s = (err invalid_params, s)
    save fresh task_id (some c) s = save_valid fresh task_id c s (validate_config parses c)

  copy_found : Option PushConfig → Result PushConfig
  copy_found none = err push_config_not_found
  copy_found (some c) = deep_copy c

  -- `Get`
  unfoldable pub get : String → String → Configs → Result PushConfig
  unfolding copy_found
  get task_id config_id s = copy_found (lookup config_id (or_empty (lookup task_id s)))

  copy_all : GoMap PushConfig → Result (List PushConfig)
  copy_all [] = ok []
  copy_all ((_, c) ∷ configs) = do copy ← deep_copy c; copies ← copy_all configs; ok (copy ∷ copies)

  -- `List`
  unfoldable pub list : String → Configs → Result (List PushConfig)
  unfolding copy_all
  list task_id s = copy_all (or_empty (lookup task_id s))

delete_in : String → String → Configs → Option (GoMap PushConfig) → Configs
delete_in task_id config_id s none = s
delete_in task_id config_id s (some configs) = insert task_id (remove config_id configs) s

-- `Delete`, which gives no error
unfoldable pub delete : String → String → Configs → Configs
unfolding delete_in
delete task_id config_id s = delete_in task_id config_id s (lookup task_id s)

-- `DeleteAll`
unfoldable pub delete_all : String → Configs → Configs
delete_all task_id s = remove task_id s
