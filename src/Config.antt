-- ===== src/Config.antt =====
-- src/mob/config.py: the configuration file, its values by dotted keys, and the active environment.
-- The file is a text or missing. `json` and the home directory are parameters; an absent result is
-- an exception that nothing catches.
pub mod Items
pub mod Keys
use mob.Prelude.{
  ℕ, Char, code, String, ◌==◌, Bool, true, false, not, ◌&&◌, ◌||◌, ◌≡◌, Option, none, some, List,
  [], ◌∷◌, any, nat_eq, or_else, map, if◌then◌else◌,
}
use mob.Json.{Json, Fields, null, bool, number, str, arr, obj, end, field, field_of, get, ◌>>=◌}
use Items.{item, put_item}

-- `json.dumps(..., indent=2) + "\n"` and `json.loads`; `loads` of another text is an exception.
pub record JsonText : Type 0 where
  pub dumps : Json → String
  pub loads : String → Option Json
  pub loads-dumps : (v : Json) → loads (dumps v) ≡ some v

abbrev pub valid_envs : List String
valid_envs = "local" ∷ "dev" ∷ "stg" ∷ "prd" ∷ []

-- `name in VALID_ENVS`
abbrev pub is_valid_env : String → Bool
is_valid_env name = any (λ e. e == name) valid_envs

-- ENV_DEFAULTS.get(name, {}), with the URL of the database in the home directory.
unfoldable pub env_defaults : (default_db : String) → String → Json
env_defaults default_db name =
    if name == "local"
    then obj (field "mode" (str "local") (field "database_url" (str default_db) end))
    else if name == "dev"
    then obj (field "mode" (str "remote") (field "api_base_url" (str "http://localhost:8080") end))
    else if name == "stg" || name == "prd"
    then obj (field "mode" (str "remote") (field "api_base_url" (str "") end))
    else obj end

-- `key.split(".")`: the first part and the others
unfoldable pub split_keys : String → String × List String
split_keys String.[] = ("", [])
split_keys (String.◌∷◌ c s) =
    let (k, ks) = split_keys s in
    if nat_eq (code c) b'.' then ("", k ∷ ks) else (String.◌∷◌ c k, ks)

-- `current[k]` if `isinstance(current, dict) and k in current`
unfoldable pub child : String → Json → Option Json
unfolding item
child k (obj fs) = item k fs
child k _ = none

-- The loop of `get_config_value`; `null` is `None`.
unfoldable pub value_at : List String → Json → Json
unfolding child
value_at [] v = v
value_at (k ∷ ks) v = elim (child k v) [ none ↦ null | some u ↦ value_at ks u ]

-- `{}` in the place of what is no dictionary
unfoldable pub dict_of : Option Json → Fields
dict_of (some (obj fs)) = fs
dict_of _ = end

-- The loop of `set_config_value` over `keys[:-1]`, and the assignment to the last key.
unfoldable pub set_at : String → List String → Json → Fields → Fields
unfolding dict_of item put_item
set_at k [] v fs = put_item k v fs
set_at k (j ∷ ks) v fs = put_item k (obj (set_at j ks v (dict_of (item k fs)))) fs

-- The file after `set_config_value`, or its exception.
pub data Change : Type 0 where
  saved : (content : String) → Change
  invalid_environment : Change
  crashed : Change

abbrev pub is_env_key : String → List String → Bool
is_env_key k [] = k == "env"
is_env_key k (j ∷ ks) = false

module _ (j : JsonText) where
  unfoldable pub load_config : Option String → Option Json
  load_config none = some (obj end)
  load_config (some content) = j.loads content

  unfoldable pub get_config_value : (key : String) → Option String → Option Json
  unfolding load_config split_keys value_at
  get_config_value key file = do
    config ← load_config file
    let (k, ks) = split_keys key
    some (value_at (k ∷ ks) config)

  -- A value that is JSON is taken as such.
  abbrev pub parsed : String → Json
  parsed value = or_else (j.loads value) (str value)

  unfoldable pub assign_value : String → List String → Json → Json → Change
  unfolding set_at
  assign_value k ks v (obj fs) = saved (j.dumps (obj (set_at k ks v fs)))
  assign_value k ks v _ = crashed

  unfoldable pub set_loaded : String → List String → (value : String) → Option Json → Change
  unfolding assign_value
  set_loaded k ks value none = crashed
  set_loaded k ks value (some config) =
      if is_env_key k ks && not (is_valid_env value)
      then invalid_environment
      else assign_value k ks (parsed value) config

  unfoldable pub set_config_value : (key value : String) → Option String → Change
  unfolding load_config split_keys set_loaded
  set_config_value key value file =
      let (k, ks) = split_keys key in set_loaded k ks value (load_config file)

-- `environments.get(env, ENV_DEFAULTS.get(env, {}))`; a list or a dictionary is no key.
unfoldable pub environment_of : (default_db : String) → Json → Json → Option Json
unfolding env_defaults get
environment_of default_db (str name) environments =
    get name (env_defaults default_db name) environments
environment_of default_db (arr xs) environments = none
environment_of default_db (obj fs) environments = none
environment_of default_db _ (obj fs) = some (obj end)
environment_of default_db _ _ = none

unfoldable pub get_active_env : Json → Option Json
unfolding get
get_active_env config = get "env" (str "local") config

unfoldable pub get_active_env_config : (default_db : String) → Json → Option Json
unfolding get environment_of
get_active_env_config default_db config = do
  env ← get "env" (str "local") config
  environments ← get "environments" (obj end) config
  environment_of default_db env environments

-- `v == "local"`
abbrev pub is_local : Json → Bool
is_local (str s) = s == "local"
is_local _ = false

unfoldable pub is_local_mode : (default_db : String) → Json → Option Bool
unfolding get_active_env_config get
is_local_mode default_db config = do
  env_config ← get_active_env_config default_db config
  mode ← get "mode" (str "local") env_config
  some (is_local mode)
