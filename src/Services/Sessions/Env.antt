-- ===== src/Services/Sessions/Env.antt =====
-- src/mob/services/sessions.py, `_build_env_vars`. Python's `str.upper` covers all of Unicode and
-- is a parameter.
use mob.Prelude.{String, ◌<>◌, not, Option, none, some, [], ◌∷◌, map, filter, is_empty, update}
use mob.Models.{Agent}
use mob.Services.Json.{Json, Dict}

-- `if column: json.loads(column)`; an absent or empty column is an empty dictionary, and the outer
-- `none` is the exception of `json.loads`.
unfoldable pub load_column : Json → Option String → Option Dict
load_column j none = some []
load_column j (some String.[]) = some []
load_column j (some (String.◌∷◌ c s)) = j.loads (String.◌∷◌ c s)

-- Layer 1: the defaults that are not empty.
abbrev pub default_layer : Dict → Dict
default_layer = filter (λ (k, v). not (is_empty v))

-- Layer 2: the custom configuration under a prefix.
abbrev pub custom_layer : (String → String) → Dict → Dict
custom_layer upper = map (λ (k, v). ("AGENT_CUSTOM_" <> upper k, v))

-- Layer 3, under `if env_overrides`.
abbrev pub override_layer : Option Dict → Dict
override_layer none = []
override_layer (some d) = d

unfoldable pub merge_layers :
    (upper : String → String) → (defaults custom : Dict) → Option Dict → Dict
unfolding update
merge_layers upper defaults custom overrides =
    update (update (update [] (default_layer defaults)) (custom_layer upper custom))
      (override_layer overrides)

-- `merged if merged else None`
abbrev pub none_if_empty : Dict → Option Dict
none_if_empty [] = none
none_if_empty (kv ∷ d) = some (kv ∷ d)

abbrev both : {A B C : Type 0} → Option A → Option B → (A → B → C) → Option C
both none b f = none
both (some a) none f = none
both (some a) (some b) f = some (f a b)

unfoldable pub build_env_vars :
    Json → (upper : String → String) → Agent → Option Dict → Option (Option Dict)
build_env_vars j upper agent env_overrides =
    both (load_column j agent.env_defaults) (load_column j agent.custom_config)
      (λ defaults custom. none_if_empty (merge_layers upper defaults custom env_overrides))
