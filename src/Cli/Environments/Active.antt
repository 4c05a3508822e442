-- ===== src/Cli/Environments/Active.antt =====
-- The active environment of a configuration, for the commands of src/mob/cli/commands/env_cmd.py.
use mathlib.Core.Option.{some-injective}
use mob.Prelude.{
  String, ◌==◌, ◌≡◌, refl, sym, ap, ◌∙◌, inl, inr, Bool, true, false, Option, none, some, arith,
  Bool-cases, Option-cases, or_else,
}
use mob.Json.{Json, Fields, null, bool, number, str, arr, obj, end, field, field_of, get}
use mob.Config.Items.{item, put_item, item-put_item, field_of-item}
use mob.Cli.Environments.{
  Exit, saved, shown, env_of, get_env_config, require_configured, show_env, env_show,
}

abbrev pub is_real : Json → Bool
is_real null = false
is_real v = true

-- An environment with a configuration
unfoldable pub IsConfigured : String → Fields → Type 0
IsConfigured name es = (v : Json) × (item name es ≡ some v) × (is_real v ≡ true)

-- The name of the active environment
unfoldable pub IsActive : String → Fields → Type 0
IsActive name fs = or_else (item "env" fs) (str "local") ≡ str name

unfoldable pub IsReady : Json → Type 0
unfolding IsConfigured IsActive
IsReady config =
    (fs : Fields) × (es : Fields) × (name : String) × (config ≡ obj fs)
    × (item "environments" fs ≡ some (obj es))
    × IsActive name fs
    × IsConfigured name es

require_configured-real :
    (v : Json) (next : Json → Exit) → is_real v ≡ true → require_configured (some v) next ≡ next v
unfolding require_configured
require_configured-real null next e = ground arith
require_configured-real (bool b) next e = refl
require_configured-real (number z t) next e = refl
require_configured-real (str s) next e = refl
require_configured-real (arr xs) next e = refl
require_configured-real (obj fs) next e = refl

pub require_configured-saved :
    (o : Option Json) (next : Json → Exit) (c : Json)
    → require_configured o next ≡ saved c
    → (v : Json) × (o ≡ some v) × (is_real v ≡ true) × (next v ≡ saved c)
unfolding require_configured
require_configured-saved none next c e = ground arith
require_configured-saved (some null) next c e = ground arith
require_configured-saved (some (bool b)) next c e = (_, refl, refl, e)
require_configured-saved (some (number z t)) next c e = (_, refl, refl, e)
require_configured-saved (some (str s)) next c e = (_, refl, refl, e)
require_configured-saved (some (arr xs)) next c e = (_, refl, refl, e)
require_configured-saved (some (obj fs)) next c e = (_, refl, refl, e)

-- `mob env show`
pub env_show-IsReady :
    (config : Json) → IsReady config → (v : Json) × (env_show none config ≡ shown v)
unfolding IsReady IsActive IsConfigured env_show show_env get_env_config env_of
env_show-IsReady config (fs, es, name, same, environments, active, (v, found, real)) = (v, shows)
  where
    shows : env_show none config ≡ shown v
    shows =
        rw
          (
            same,
            field_of-item "env" (str "local") fs,
            active,
            field_of-item "environments" (obj end) fs,
            environments,
            field_of-item name null es,
            found,
          )
          (require_configured-real v shown real)

item-real :
    (name : String) (v : Json) (es : Fields)
    → field_of name null es ≡ v
    → is_real v ≡ true
    → item name es ≡ some v
item-real name v es e real = elim (Option-cases (item name es)) [
  | inl missing ↦
      let absent : field_of name null es ≡ null = rw (field_of-item name null es, missing) refl in
      let fails : false ≡ true = ap is_real (sym absent ∙ e) ∙ real in ground arith
  | inr (w, found) ↦
      let same : field_of name null es ≡ w = rw (field_of-item name null es, found) refl in
      found ∙ ap some (sym same ∙ e)
]

env_of-some :
    (environments : Json) (name : String) (v : Json)
    → env_of (str name) environments ≡ some v
    → is_real v ≡ true
    → (es : Fields) × (environments ≡ obj es) × (item name es ≡ some v)
unfolding env_of get
env_of-some null name v e real = ground arith
env_of-some (bool b) name v e real = ground arith
env_of-some (number z t) name v e real = ground arith
env_of-some (str s) name v e real = ground arith
env_of-some (arr xs) name v e real = ground arith
env_of-some (obj es) name v e real = (es, refl, item-real name v es (some-injective _ _ e) real)

not_default :
    (o : Option Json) (name : String) (v : Json) (es : Fields)
    → or_else o (obj end) ≡ obj es
    → item name es ≡ some v
    → o ≡ some (obj es)
unfolding item
not_default none name v end e found = ground arith
not_default none name v (field k w es) e found = ground arith
not_default (some w) name v es e found = ap some e

-- What `env_config is not None` says of the configuration
pub get_env_config-some :
    (fs : Fields) (name : String) (v : Json)
    → get_env_config (obj fs) (str name) ≡ some v
    → is_real v ≡ true
    → (es : Fields) × (item "environments" fs ≡ some (obj es)) × (item name es ≡ some v)
unfolding get_env_config
get_env_config-some fs name v e real =
    let e' : env_of (str name) (or_else (item "environments" fs) (obj end)) ≡ some v =
      rw (sym (field_of-item "environments" (obj end) fs)) e in
    let (es, same, found) =
      env_of-some (or_else (item "environments" fs) (obj end)) name v e' real in
    (es, not_default (item "environments" fs) name v es same found, found)

-- Another value of "environments"
pub IsReady-environments :
    (fs es : Fields) (name : String)
    → IsActive name fs
    → IsConfigured name es
    → IsReady (obj (put_item "environments" (obj es) fs))
unfolding IsReady IsActive
IsReady-environments fs es name active configured =
    let listed : item "environments" (put_item "environments" (obj es) fs) ≡ some (obj es) =
      rw (item-put_item "environments" "environments" (obj es) fs) refl in
    let kept : or_else (item "env" (put_item "environments" (obj es) fs)) (str "local") ≡ str name =
      rw (item-put_item "env" "environments" (obj es) fs) active in
    (put_item "environments" (obj es) fs, es, name, refl, listed, kept, configured)

-- Another value of "env"
pub IsReady-env :
    (fs es : Fields) (name : String)
    → item "environments" fs ≡ some (obj es)
    → IsConfigured name es
    → IsReady (obj (put_item "env" (str name) fs))
unfolding IsReady IsActive
IsReady-env fs es name environments configured =
    let listed : item "environments" (put_item "env" (str name) fs) ≡ some (obj es) =
      rw (item-put_item "environments" "env" (str name) fs) environments in
    let active : or_else (item "env" (put_item "env" (str name) fs)) (str "local") ≡ str name =
      rw (item-put_item "env" "env" (str name) fs) refl in
    (put_item "env" (str name) fs, es, name, refl, listed, active, configured)

pub IsConfigured-put_item :
    (n name : String) (v : Json) (es : Fields)
    → is_real v ≡ true
    → IsConfigured n es
    → IsConfigured n (put_item name v es)
unfolding IsConfigured
IsConfigured-put_item n name v es real (w, found, real') = elim (Bool-cases (name == n)) [
  | inl same ↦ (v, rw (item-put_item n name v es, same) refl, real)
  | inr other ↦ (w, rw (item-put_item n name v es, other) found, real')
]
