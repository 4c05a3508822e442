-- ===== src/Cli/Environments/Growth.antt =====
-- `mob init` (src/mob/cli/commands/init_cmd.py): what the loop makes of the
-- environments.
use mathlib.Core.Path.{subst}
use mathlib.Core.Option.{some-injective}
use mob.Prelude.{
  String, ◌==◌, eq_refl, ◌≡◌, refl, sym, ap, ◌∙◌, Bool, true, false, Option, none, some, List, [],
  ◌∷◌, arith, if◌then◌else◌,
}
use mob.Json.{Json, Fields, obj, end, ◌>>=◌}
use mob.Config.Items.{item, put_item, item-put_item}
use mob.Cli.Environments.Active.{is_real, IsConfigured, IsConfigured-put_item}
use mob.Cli.Environments.Edits.{saved-injective}
use mob.Cli.Environments.Init.{
  Answers, init_env, prompt_remote_env, is_some_item, is_in, assign_env, assign_answer,
  overwrite_env, init_one, and_then, init_each, default_url,
}
use mob.Cli.Environments.{Exit, saved, shown, refused, aborted, crashed}

pub and_then-saved :
    (exit : Exit) (next : Json → Exit) (c : Json)
    → and_then exit next ≡ saved c
    → (m : Json) × (exit ≡ saved m) × (next m ≡ saved c)
unfolding and_then
and_then-saved (saved v) next c e = (v, refl, e)
and_then-saved (shown v) next c e = ground arith
and_then-saved refused next c e = ground arith
and_then-saved aborted next c e = ground arith
and_then-saved crashed next c e = ground arith

-- The environments have configurations, and only such.
unfoldable pub AreReal : Fields → Type 0
AreReal es = (n : String) (v : Json) → item n es ≡ some v → is_real v ≡ true

real_if :
    (b : Bool) (w v : Json) (o : Option Json)
    → is_real w ≡ true
    → (o ≡ some v → is_real v ≡ true)
    → (if b then some w else o) ≡ some v
    → is_real v ≡ true
real_if true w v o real h e = ap is_real (sym (some-injective w v e)) ∙ real
real_if false w v o real h e = h e

AreReal-put_item :
    (name : String) (w : Json) (es : Fields)
    → is_real w ≡ true
    → AreReal es
    → AreReal (put_item name w es)
unfolding AreReal
AreReal-put_item name w es real h n v found =
    real_if (name == n) w v (item n es) real (h n v) (sym (item-put_item n name w es) ∙ found)

-- What the answers give, if they give a configuration
unfoldable pub IsAnswer : Option Json → Type 0
IsAnswer o = (w : Json) → o ≡ some w → is_real w ≡ true

IsAnswer-bind :
    (o : Option String) (f : String → Option Json)
    → ((s : String) → IsAnswer (f s))
    → IsAnswer (o >>= f)
unfolding IsAnswer
IsAnswer-bind none f h w e = ground arith
IsAnswer-bind (some s) f h w e = h s w e

IsAnswer-obj : (fs : Fields) → IsAnswer (some (obj fs))
unfolding IsAnswer
IsAnswer-obj fs w e = ap is_real (sym (some-injective (obj fs) w e))

IsAnswer-if :
    (b : Bool) (o o' : Option Json) → IsAnswer o → IsAnswer o' → IsAnswer (if b then o else o')
IsAnswer-if true o o' h h' = h
IsAnswer-if false o o' h h' = h'

pub init_env-IsAnswer :
    (default_db : String) (ask : Answers) (name : String) → IsAnswer (init_env default_db ask name)
unfolding init_env prompt_remote_env
init_env-IsAnswer default_db ask name =
    IsAnswer-if (name == "local") _ _
      (IsAnswer-bind (ask.database_url "local" default_db) _ (λ s. IsAnswer-obj _))
      (IsAnswer-bind (ask.api_base_url name (default_url default_db ask name)) _ (λ s.
        IsAnswer-if (name == "dev") _ _
          (IsAnswer-bind (ask.database_url "dev" _) _ (λ u. IsAnswer-obj _)) (IsAnswer-obj _)))

obj-injective : {fs gs : Fields} → obj fs ≡ obj gs → fs ≡ gs
obj-injective e = cc

-- The environments that the loop of `init` comes to: no configuration is lost.
unfoldable pub Extends : Fields → Json → Type 0
Extends es m =
    (es' : Fields) × (m ≡ obj es')
    × ((n : String) → IsConfigured n es → IsConfigured n es')
    × (AreReal es → AreReal es')

pub assign_answer-Extends :
    (name : String) (o : Option Json) (es : Fields) (m : Json)
    → IsAnswer o
    → assign_answer name o (obj es) ≡ saved m
    → Extends es m
unfolding Extends IsAnswer assign_answer assign_env
assign_answer-Extends name none es m h e = ground arith
assign_answer-Extends name (some w) es m h e = (
  put_item name w es,
  sym (saved-injective e),
  (λ n c. IsConfigured-put_item n name w es (h w refl) c),
  AreReal-put_item name w es (h w refl),
)

init_one-Extends :
    (ask : Answers) (name : String) (o : Option Bool) (assigned : Exit) (es : Fields) (m : Json)
    → (assigned ≡ saved m → Extends es m)
    → init_one ask name o assigned (obj es) ≡ saved m
    → Extends es m
unfolding init_one overwrite_env Extends
init_one-Extends ask name none assigned es m h e = ground arith
init_one-Extends ask name (some false) assigned es m h e = h e
init_one-Extends ask name (some true) assigned es m h e = overwritten (ask.overwrite name) e
  where
    overwritten : (a : Option Bool) → overwrite_env a assigned (obj es) ≡ saved m → Extends es m
    overwritten none e = ground arith
    overwritten (some true) e = h e
    overwritten (some false) e = (es, sym (saved-injective e), (λ n c. c), (λ r. r))

Extends-trans : (es es' : Fields) (m : Json) → Extends es (obj es') → Extends es' m → Extends es m
unfolding Extends
Extends-trans es es' m (fs, same, keep, real) (fs', same', keep', real') =
    let to : obj fs ≡ obj es' = sym same in
    (
      fs',
      same',
      (λ n c. keep' n (subst (IsConfigured n) (obj-injective to) (keep n c))),
      (λ r. real' (subst AreReal (obj-injective to) (real r))),
    )

pub init_each-Extends :
    (default_db : String) (ask : Answers) (names : List String) (es : Fields) (m : Json)
    → init_each default_db ask names (obj es) ≡ saved m
    → Extends es m
unfolding init_each Extends
init_each-Extends default_db ask [] es m e = (es, sym (saved-injective e), (λ n c. c), (λ r. r))
init_each-Extends default_db ask (name ∷ names) es m e =
    let (m', first, others) = and_then-saved _ (init_each default_db ask names) m e in
    let (es', same, keep, real) =
      init_one-Extends ask name (is_in name (obj es)) _ es m'
        (assign_answer-Extends name (init_env default_db ask name) es m'
          (init_env-IsAnswer default_db ask name))
        first in
    Extends-trans es es' m (es', refl, keep, real)
      (init_each-Extends default_db ask names es' m
        (ap (init_each default_db ask names) (sym same) ∙ others))

-- The first of the environments, when there are none.
pub init_each-first :
    (default_db : String) (ask : Answers) (name : String) (names : List String) (m : Json)
    → init_each default_db ask (name ∷ names) (obj end) ≡ saved m
    → (es : Fields) × (m ≡ obj es) × IsConfigured name es × AreReal es
unfolding init_each is_in is_some_item item init_one Extends IsAnswer IsConfigured AreReal
    assign_answer assign_env
init_each-first default_db ask name names m e =
    let (m', first, others) = and_then-saved _ (init_each default_db ask names) m e in
    let (es, same, configured, real) =
      assigned-first name (init_env default_db ask name) m' (init_env-IsAnswer default_db ask name)
        first in
    let (es', same', keep, real') =
      init_each-Extends default_db ask names es m
        (ap (init_each default_db ask names) (sym same) ∙ others) in
    (es', same', keep name configured, real' real)
  where
    assigned-first :
        (name : String) (o : Option Json) (m' : Json)
        → IsAnswer o
        → assign_answer name o (obj end) ≡ saved m'
        → (es : Fields) × (m' ≡ obj es) × IsConfigured name es × AreReal es
    assigned-first name none m' h e = ground arith
    assigned-first name (some w) m' h e = (
      put_item name w end,
      sym (saved-injective e),
      (w, rw (item-put_item name name w end, eq_refl name) refl, h w refl),
      AreReal-put_item name w end (h w refl) (λ n v found. ground arith),
    )
