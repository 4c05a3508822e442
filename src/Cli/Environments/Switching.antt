-- ===== src/Cli/Environments/Switching.antt =====
-- `mob env set` (src/mob/cli/commands/env_cmd.py) and what src/mob/config.py makes of the
-- configuration that it saves.
use mathlib.Core.Path.{subst}
use mob.Prelude.{String, ◌≡◌, refl, sym, ap, ◌∙◌, some, arith}
use mob.Json.{Json, Fields, null, bool, number, str, arr, obj, end, get}
use mob.Config.{is_valid_env, env_defaults, environment_of, get_active_env_config}
use mob.Config.Items.{item, put_item, item-put_item, field_of-item}
use mob.Cli.Environments.Active.{get_env_config-some}
use mob.Cli.Environments.Edits.{required, saved-injective}
use mob.Cli.Environments.{saved, get_env_config, set_env, env_set}

set_env-saved :
    (name : String) (config c : Json)
    → set_env name config ≡ saved c
    → (fs : Fields) × (config ≡ obj fs) × (obj (put_item "env" (str name) fs) ≡ c)
unfolding set_env
set_env-saved name null c e = ground arith
set_env-saved name (bool b) c e = ground arith
set_env-saved name (number z t) c e = ground arith
set_env-saved name (str s) c e = ground arith
set_env-saved name (arr xs) c e = ground arith
set_env-saved name (obj fs) c e = (fs, refl, saved-injective e)

active-put_item :
    (default_db name : String) (v : Json) (fs es : Fields)
    → item "environments" fs ≡ some (obj es)
    → item name es ≡ some v
    → get_active_env_config default_db (obj (put_item "env" (str name) fs)) ≡ some v
unfolding get_active_env_config environment_of get
active-put_item default_db name v fs es environments found =
    rw
      (
        field_of-item "env" (str "local") (put_item "env" (str name) fs),
        item-put_item "env" "env" (str name) fs,
        field_of-item "environments" (obj end) (put_item "env" (str name) fs),
        item-put_item "environments" "env" (str name) fs,
        environments,
        field_of-item name (env_defaults default_db name) es,
        found,
      )
      refl

-- After an env set that saves, the active configuration of config.py is the configuration that
-- the environment had.
pub get_active_env_config-env_set :
    (default_db name : String) (config c : Json)
    → env_set name config ≡ saved c
    → (v : Json) × (get_env_config config (str name) ≡ some v)
      × (get_active_env_config default_db c ≡ some v)
unfolding env_set
get_active_env_config-env_set default_db name config c e =
    let (v, found, real, e') =
      required (get_env_config config (str name)) c (λ env_config. set_env name config)
        (is_valid_env name) e in
    let (fs, same, saves) = set_env-saved name config c e' in
    let (es, environments, named) =
      get_env_config-some fs name v (ap (λ x. get_env_config x (str name)) (sym same) ∙ found)
        real in
    (
      v,
      found,
      subst (λ x. get_active_env_config default_db x ≡ some v) saves
          (active-put_item default_db name v fs es environments named),
    )
