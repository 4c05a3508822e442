-- ===== src/Cli/Environments/Edits.antt =====
-- The commands of src/mob/cli/commands/env_cmd.py: the active environment of what they save.
use mathlib.Core.Path.{subst}
use mob.Prelude.{
  String, ◌==◌, ◌≡◌, refl, sym, ap, ◌∙◌, Bool, true, false, Option, some, arith, if◌then◌else◌,
}
use mob.Json.{Json, Fields, null, bool, number, str, arr, obj, end, field, field_of, get}
use mob.Config.{is_valid_env}
use mob.Config.Items.{item, put_item, del_item, item-del_item, field_of-item}
use mob.Cli.Environments.Active.{
  is_real, IsConfigured, IsActive, IsReady, require_configured-saved, get_env_config-some,
  IsReady-environments, IsReady-env, IsConfigured-put_item,
}
use mob.Cli.Environments.{
  Exit, saved, refused, get_env_config, require_configured, set_env, env_set, put_env, update,
  save_edit, edit_with, env_edit, del_env, save_delete, is_named, delete_unless, env_delete,
  updates,
}

pub saved-injective : {c d : Json} → saved c ≡ saved d → c ≡ d
saved-injective e = cc

-- What a command saves after `_require_configured`
pub required :
    (o : Option Json) (c : Json) (next : Json → Exit) (b : Bool)
    → (if b then require_configured o next else refused) ≡ saved c
    → (v : Json) × (o ≡ some v) × (is_real v ≡ true) × (next v ≡ saved c)
required o c next true e = require_configured-saved o next c e
required o c next false e = ground arith

pub env_set-IsReady :
    (name : String) (config c : Json) → IsReady config → env_set name config ≡ saved c → IsReady c
unfolding IsReady env_set set_env
env_set-IsReady name config c (fs, es, active, same, environments, now, configured) e =
    let (v, found, real, e') =
      required (get_env_config config (str name)) c (λ env_config. set_env name config)
        (is_valid_env name) e in
    let found' : get_env_config (obj fs) (str name) ≡ some v =
      ap (λ x. get_env_config x (str name)) (sym same) ∙ found in
    let (es', environments', named) = get_env_config-some fs name v found' real in
    let e'' : set_env name (obj fs) ≡ saved c = ap (set_env name) (sym same) ∙ e' in
    subst IsReady (saved-injective e'')
      (IsReady-env fs es' name environments' (unfold IsConfigured in (v, named, real)))

save_edit-saved :
    (name : String) (us fs es : Fields) (v c : Json)
    → item "environments" fs ≡ some (obj es)
    → save_edit name us (obj fs) v ≡ saved c
    → (w : Fields) × (obj (put_item "environments" (obj (put_item name (obj w) es)) fs) ≡ c)
unfolding save_edit put_env
save_edit-saved name us fs es null c environments e = ground arith
save_edit-saved name us fs es (bool b) c environments e = ground arith
save_edit-saved name us fs es (number z t) c environments e = ground arith
save_edit-saved name us fs es (str s) c environments e = ground arith
save_edit-saved name us fs es (arr xs) c environments e = ground arith
save_edit-saved name us fs es (obj vs) c environments e = (
  update us vs,
  saved-injective (ap (put_env name (obj (update us vs)) fs) (sym environments) ∙ e),
)

edit_with-saved :
    (name : String) (us fs es : Fields) (v c : Json)
    → item "environments" fs ≡ some (obj es)
    → edit_with us name (obj fs) v ≡ saved c
    → (w : Fields) × (obj (put_item "environments" (obj (put_item name (obj w) es)) fs) ≡ c)
unfolding edit_with
edit_with-saved name end fs es v c environments e = ground arith
edit_with-saved name (field k u us) fs es v c environments e =
    save_edit-saved name (field k u us) fs es v c environments e

pub env_edit-IsReady :
    (name : String) (mode database_url api_base_url : Option String) (config c : Json)
    → IsReady config
    → env_edit name mode database_url api_base_url config ≡ saved c
    → IsReady c
unfolding IsReady env_edit
env_edit-IsReady name mode database_url api_base_url config c
      (fs, es, active, same, environments, now, configured) e =
    let us =
      updates "mode" mode
        (updates "database_url" database_url (updates "api_base_url" api_base_url end)) in
    let (v, found, real, e') =
      required (get_env_config config (str name)) c (edit_with us name config) (is_valid_env name)
        e in
    let e'' : edit_with us name (obj fs) v ≡ saved c =
      ap (λ x. edit_with us name x v) (sym same) ∙ e' in
    let (w, saves) = edit_with-saved name us fs es v c environments e'' in
    subst IsReady saves (
      IsReady-environments fs (put_item name (obj w) es) active now
        (IsConfigured-put_item active name (obj w) es refl configured))

IsConfigured-del_item :
    (n name : String) (es : Fields)
    → (name == n) ≡ false
    → IsConfigured n es
    → IsConfigured n (del_item name es)
unfolding IsConfigured
IsConfigured-del_item n name es other (v, found, real) =
    (v, rw (item-del_item n name es, other) found, real)

-- What a command saves that refuses first on `b`
required_unless :
    (o : Option Json) (c : Json) (next : Json → Exit) (b : Bool)
    → (if b then refused else require_configured o next) ≡ saved c
    → (b ≡ false) × ((v : Json) × (o ≡ some v) × (is_real v ≡ true) × (next v ≡ saved c))
required_unless o c next true e = ground arith
required_unless o c next false e = (refl, require_configured-saved o next c e)

save_delete-saved :
    (name : String) (fs es : Fields) (c : Json)
    → item "environments" fs ≡ some (obj es)
    → save_delete name (obj fs) ≡ saved c
    → obj (put_item "environments" (obj (del_item name es)) fs) ≡ c
unfolding save_delete del_env
save_delete-saved name fs es c environments e =
    saved-injective (ap (del_env name fs) (sym environments) ∙ e)

delete_unless-IsReady :
    (name active : String) (fs es : Fields) (c : Json)
    → item "environments" fs ≡ some (obj es)
    → IsActive active fs
    → IsConfigured active es
    → delete_unless (some (str active)) name (obj fs) ≡ saved c
    → IsReady c
unfolding delete_unless is_named
delete_unless-IsReady name active fs es c environments now configured e =
    let (other, (v, found, real, e')) =
      required_unless (get_env_config (obj fs) (str name)) c
        (λ env_config. save_delete name (obj fs)) (name == active) e in
    subst IsReady (save_delete-saved name fs es c environments e') (
      IsReady-environments fs (del_item name es) active now
        (IsConfigured-del_item active name es other configured))

pub when_valid :
    (b : Bool) (exit : Exit) (c : Json) → (if b then exit else refused) ≡ saved c → exit ≡ saved c
when_valid true exit c e = e
when_valid false exit c e = ground arith

pub env_delete-IsReady :
    (name : String) (config c : Json)
    → IsReady config
    → env_delete name config ≡ saved c
    → IsReady c
unfolding IsReady IsActive env_delete get
env_delete-IsReady name config c (fs, es, active, same, environments, now, configured) e =
    let e' : delete_unless (get "env" (str "local") config) name config ≡ saved c =
      when_valid (is_valid_env name) _ c e in
    let e'' : delete_unless (some (field_of "env" (str "local") fs)) name (obj fs) ≡ saved c =
      ap (λ x. delete_unless (get "env" (str "local") x) name x) (sym same) ∙ e' in
    let current : field_of "env" (str "local") fs ≡ str active =
      field_of-item "env" (str "local") fs ∙ now in
    delete_unless-IsReady name active fs es c environments now configured
      (ap (λ a. delete_unless (some a) name (obj fs)) (sym current) ∙ e'')
