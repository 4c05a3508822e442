-- ===== src/Cli/Environments.antt =====
-- src/mob/cli/commands/env_cmd.py and init_cmd.py: the environments of the configuration file, from
-- the dictionary that `load_config` gives to the one that `save_config` writes. What the user
-- answers to a prompt is a parameter; no answer is click's Abort.
pub mod Active
pub mod Init
pub mod Edits
pub mod Growth
pub mod Initial
pub mod Commands
pub mod Switching
use mob.Prelude.{
  String, ◌==◌, Bool, true, false, not, ◌||◌, Option, none, some, List, [], ◌∷◌, any, or_else,
  if◌then◌else◌,
}
use mob.Json.{
  Json, Items, Fields, null, bool, number, str, arr, obj, end, field, to_list, get, is_true, ◌>>=◌,
}
use mob.Config.{valid_envs, is_valid_env}
use mob.Config.Items.{item, put_item, del_item}

-- How a command ends: with the configuration saved, with an environment's configuration shown, with
-- `SystemExit(1)`, with Abort, or with an exception.
pub data Exit : Type 0 where
  saved : (config : Json) → Exit
  shown : (env_config : Json) → Exit
  refused : Exit
  aborted : Exit
  crashed : Exit

-- `environments.get(name)`; a list or a dictionary is no key.
unfoldable pub env_of : Json → Json → Option Json
unfolding get
env_of (arr xs) environments = none
env_of (obj fs) environments = none
env_of (str name) environments = get name null environments
env_of _ (obj es) = some null
env_of _ _ = none

unfoldable pub get_env_config : Json → (env_name : Json) → Option Json
unfolding get env_of
get_env_config config env_name = do
  environments ← get "environments" (obj end) config
  env_of env_name environments

-- `_require_configured` and what follows it
unfoldable pub require_configured : Option Json → (Json → Exit) → Exit
require_configured none next = crashed
require_configured (some null) next = refused
require_configured (some env_config) next = next env_config

-- `config["env"] = name`
unfoldable pub set_env : String → Json → Exit
unfolding put_item
set_env name (obj fs) = saved (obj (put_item "env" (str name) fs))
set_env name _ = crashed

unfoldable pub env_set : (name : String) → Json → Exit
unfolding get_env_config require_configured set_env
env_set name config =
    if is_valid_env name
    then require_configured (get_env_config config (str name)) (λ env_config. set_env name config)
    else refused

unfoldable pub show_env : Json → Option Json → Exit
unfolding get_env_config require_configured
show_env config none = crashed
show_env config (some name) = require_configured (get_env_config config name) shown

unfoldable pub env_show : (name : Option String) → Json → Exit
unfolding get show_env
env_show none config = show_env config (get "env" (str "local") config)
env_show (some name) config =
    if is_valid_env name then show_env config (some (str name)) else refused

-- `config["environments"][name] = env_config`, given what `config["environments"]` is
unfoldable pub put_env : String → Json → Fields → Option Json → Exit
unfolding put_item
put_env name env_config fs (some (obj es)) =
    saved (obj (put_item "environments" (obj (put_item name env_config es)) fs))
put_env name env_config fs _ = crashed

-- The `updates` of `env edit`
unfoldable pub updates : (key : String) → Option String → Fields → Fields
updates key none others = others
updates key (some text) others = field key (str text) others

-- `env_config.update(updates)`
unfoldable pub update : Fields → Fields → Fields
unfolding put_item
update end es = es
update (field k v us) es = update us (put_item k v es)

unfoldable pub save_edit : String → Fields → Json → Json → Exit
unfolding update put_env
save_edit name us (obj fs) (obj vs) = put_env name (obj (update us vs)) fs (item "environments" fs)
save_edit name us config env_config = crashed

unfoldable pub edit_with : Fields → String → Json → Json → Exit
unfolding save_edit
edit_with end name config env_config = refused
edit_with (field k v us) name config env_config = save_edit name (field k v us) config env_config

unfoldable pub env_edit :
    (name : String) (mode database_url api_base_url : Option String) → Json → Exit
unfolding get_env_config require_configured updates edit_with
env_edit name mode database_url api_base_url config =
    if is_valid_env name
    then require_configured (get_env_config config (str name)) (λ env_config.
      edit_with
        (updates "mode" mode
          (updates "database_url" database_url (updates "api_base_url" api_base_url end)))
        name config env_config)
    else refused

-- `del config["environments"][name]`
unfoldable pub del_env : String → Fields → Option Json → Exit
unfolding put_item del_item
del_env name fs (some (obj es)) = saved (obj (put_item "environments" (obj (del_item name es)) fs))
del_env name fs _ = crashed

unfoldable pub save_delete : String → Json → Exit
unfolding item del_env
save_delete name (obj fs) = del_env name fs (item "environments" fs)
save_delete name config = crashed

-- `name == active_env`
unfoldable pub is_named : String → Json → Bool
is_named name (str active_env) = name == active_env
is_named name active_env = false

unfoldable pub delete_unless : (active_env : Option Json) → String → Json → Exit
unfolding get_env_config require_configured save_delete is_named
delete_unless none name config = crashed
delete_unless (some active_env) name config =
    if is_named name active_env
    then refused
    else require_configured (get_env_config config (str name))
        (λ env_config. save_delete name config)

unfoldable pub env_delete : (name : String) → Json → Exit
unfolding get delete_unless
env_delete name config =
    if is_valid_env name
    then delete_unless (get "env" (str "local") config) name config
    else refused
