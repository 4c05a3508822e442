-- ===== src/Cli/Environments/Initial.antt =====
-- `mob init` (src/mob/cli/commands/init_cmd.py): the active environment of what it saves.
use mathlib.Core.Path.{subst}
use mob.Prelude.{
  String, ◌≡◌, refl, sym, ap, ◌∙◌, inl, inr, true, false, Option, none, some, List, [], ◌∷◌,
  Option-cases, or_else,
}
use mob.Json.{Json, Fields, str, obj, end}
use mob.Config.{is_valid_env, valid_envs}
use mob.Config.Items.{item, put_item, item-put_item}
use mob.Cli.Environments.Active.{IsConfigured, IsActive, IsReady, IsReady-environments, IsReady-env}
use mob.Cli.Environments.Edits.{saved-injective, when_valid}
use mob.Cli.Environments.Growth.{
  AreReal, Extends, and_then-saved, init_each-Extends, init_each-first,
}
use mob.Cli.Environments.Init.{
  Answers, is_some_item, is_in, init_each, first_env, default_env, save_environments,
  environments_of, init_names, init,
}
use mob.Cli.Environments.{saved}

str-injective : {s t : String} → str s ≡ str t → s ≡ t
str-injective e = cc

put_environments-env :
    (m : Json) (fs : Fields) → item "env" (put_item "environments" m fs) ≡ item "env" fs
put_environments-env m fs = rw (item-put_item "env" "environments" m fs) refl

put_environments-environments :
    (m : Json) (fs : Fields) → item "environments" (put_item "environments" m fs) ≡ some m
put_environments-environments m fs = rw (item-put_item "environments" "environments" m fs) refl

-- The active environment was set.
save_environments-kept :
    (fs es : Fields) (names : List String) (name : String) (c : Json)
    → item "env" fs ≡ some (str name)
    → IsConfigured name es
    → save_environments fs names (obj es) ≡ saved c
    → IsReady c
unfolding save_environments default_env IsActive
save_environments-kept fs es names name c env configured e =
    let fs' = put_item "environments" (obj es) fs in
    let e' : default_env (some (str name)) names (obj es) fs' ≡ saved c =
      ap (λ o. default_env o names (obj es) fs') (sym (put_environments-env (obj es) fs ∙ env))
      ∙ e in
    subst IsReady (saved-injective e') (IsReady-environments fs es name (rw (env) refl) configured)

save_environments-default :
    (fs es : Fields) (names : List String) (c : Json)
    → item "env" fs ≡ none
    → save_environments fs names (obj es) ≡ saved c
    → first_env (some (is_some_item (item "local" es))) names (put_item "environments" (obj es) fs)
      ≡ saved c
unfolding save_environments default_env is_in
save_environments-default fs es names c env e =
    let fs' = put_item "environments" (obj es) fs in
    ap (λ o. default_env o names (obj es) fs') (sym (put_environments-env (obj es) fs ∙ env)) ∙ e

-- It was not, and there is a local environment.
save_environments-local :
    (fs es : Fields) (names : List String) (c : Json)
    → item "env" fs ≡ none
    → IsConfigured "local" es
    → save_environments fs names (obj es) ≡ saved c
    → IsReady c
unfolding first_env IsConfigured is_some_item
save_environments-local fs es names c env (v, found, real) e =
    let fs' = put_item "environments" (obj es) fs in
    let e' : first_env (some true) names fs' ≡ saved c =
      ap (λ o. first_env (some (is_some_item o)) names fs') (sym found)
      ∙ save_environments-default fs es names c env e in
    subst IsReady (saved-injective e')
      (IsReady-env fs' es "local" (put_environments-environments (obj es) fs) (v, found, real))

-- It was not, and the first of the environments is configured.
save_environments-first :
    (fs es : Fields) (name : String) (names : List String) (c : Json)
    → item "env" fs ≡ none
    → AreReal es
    → IsConfigured name es
    → save_environments fs (name ∷ names) (obj es) ≡ saved c
    → IsReady c
unfolding first_env IsConfigured is_some_item AreReal
save_environments-first fs es name names c env real configured e =
    elim (Option-cases (item "local" es)) [
      | inl missing ↦
          let fs' = put_item "environments" (obj es) fs in
          let e' : first_env (some false) (name ∷ names) fs' ≡ saved c =
            ap (λ o. first_env (some (is_some_item o)) (name ∷ names) fs') (sym missing)
            ∙ save_environments-default fs es (name ∷ names) c env e in
          subst IsReady (saved-injective e')
            (IsReady-env fs' es name (put_environments-environments (obj es) fs) configured)
      | inr (v, found) ↦
          save_environments-local fs es (name ∷ names) c env (v, found, real "local" v found) e
    ]

IsReady-init_names :
    (default_db : String) (ask : Answers) (names : List String) (config c : Json)
    → IsReady config
    → init_names default_db ask names config ≡ saved c
    → IsReady c
unfolding IsReady IsActive init_names Extends
IsReady-init_names default_db ask names config c (fs, es, name, same, environments, now, configured)
      e =
    let e' : init_names default_db ask names (obj fs) ≡ saved c =
      ap (init_names default_db ask names) (sym same) ∙ e in
    let (m, each, rest) = and_then-saved _ (save_environments fs names) c e' in
    let each' : init_each default_db ask names (obj es) ≡ saved m =
      ap (λ o. init_each default_db ask names (environments_of o)) (sym environments) ∙ each in
    let (es', grown, keep, real) = init_each-Extends default_db ask names es m each' in
    let rest' : save_environments fs names (obj es') ≡ saved c =
      ap (save_environments fs names) (sym grown) ∙ rest in
    elim (Option-cases (item "env" fs)) [
      | inl missing ↦
          let local : name ≡ "local" =
            str-injective (sym (ap (λ o. or_else o (str "local")) (sym missing) ∙ now)) in
          save_environments-local fs es' names c missing
            (subst (λ n. IsConfigured n es') local (keep name configured)) rest'
      | inr (v, found) ↦
          let current : v ≡ str name = ap (λ o. or_else o (str "local")) (sym found) ∙ now in
          save_environments-kept fs es' names name c (found ∙ ap some current)
            (keep name configured) rest'
    ]

pub init-IsReady :
    (default_db : String) (ask : Answers) (env : Option String) (config c : Json)
    → IsReady config
    → init default_db ask env config ≡ saved c
    → IsReady c
unfolding init
init-IsReady default_db ask none config c ready e =
    IsReady-init_names default_db ask valid_envs config c ready e
init-IsReady default_db ask (some env) config c ready e =
    IsReady-init_names default_db ask (env ∷ []) config c ready
      (when_valid (is_valid_env env) _ c e)

-- A first `mob init`, without a configuration file
init_names-first :
    (default_db : String) (ask : Answers) (name : String) (names : List String) (c : Json)
    → init_names default_db ask (name ∷ names) (obj end) ≡ saved c
    → IsReady c
unfolding init_names item
init_names-first default_db ask name names c e =
    let (m, each, rest) = and_then-saved _ (save_environments end (name ∷ names)) c e in
    let (es, same, configured, real) = init_each-first default_db ask name names m each in
    save_environments-first end es name names c refl real configured
      (ap (save_environments end (name ∷ names)) (sym same) ∙ rest)

pub init-first :
    (default_db : String) (ask : Answers) (env : Option String) (c : Json)
    → init default_db ask env (obj end) ≡ saved c
    → IsReady c
unfolding init
init-first default_db ask none c e =
    init_names-first default_db ask "local" ("dev" ∷ "stg" ∷ "prd" ∷ []) c e
init-first default_db ask (some env) c e =
    init_names-first default_db ask env [] c (when_valid (is_valid_env env) _ c e)
