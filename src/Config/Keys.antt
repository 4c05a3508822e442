-- ===== src/Config/Keys.antt =====
-- src/mob/config.py: the values at dotted keys after a value is set.
use mathlib.Core.Path.{subst}
use mob.Prelude.{
  String, ◌==◌, eq_iff, eq_refl, ◌≡◌, ◌≢◌, refl, sym, ap, ◌∙◌, ◌⊎◌, inl, inr, false, not, ◌&&◌,
  Option, none, some, List, [], ◌∷◌, arith, Bool-cases,
}
use mob.Json.{Json, Fields, null, bool, number, str, arr, obj}
use mob.Config.Items.{item, put_item, item-put_item}
use mob.Config.{
  JsonText, saved, split_keys, child, value_at, dict_of, set_at, load_config, get_config_value,
  parsed, assign_value, set_loaded, set_config_value, is_env_key, is_valid_env,
}

-- Two keys that part ways before either ends.
unfoldable pub Apart : String → List String → String → List String → Type 0
Apart j [] k [] = j ≢ k
Apart j [] k (l ∷ ks) = j ≢ k
Apart j (i ∷ js) k [] = j ≢ k
Apart j (i ∷ js) k (l ∷ ks) = (j ≢ k) ⊎ (j ≡ k) × Apart i js l ks

abbrev below : List String → Option Json → Json
below ks o = elim o [ none ↦ null | some u ↦ value_at ks u ]

value_at-obj :
    (k : String) (ks : List String) (fs : Fields)
    → value_at (k ∷ ks) (obj fs) ≡ below ks (item k fs)
unfolding value_at child
value_at-obj k ks fs = refl

value_at-put_item_self :
    (k : String) (ks : List String) (v : Json) (fs : Fields)
    → value_at (k ∷ ks) (obj (put_item k v fs)) ≡ value_at ks v
value_at-put_item_self k ks v fs =
    let found : item k (put_item k v fs) ≡ some v = rw (item-put_item k k v fs, eq_refl k) refl in
    value_at-obj k ks (put_item k v fs) ∙ ap (below ks) found

value_at-put_item_ne :
    (j k : String) (js : List String) (v : Json) (fs : Fields)
    → j ≢ k
    → value_at (j ∷ js) (obj (put_item k v fs)) ≡ value_at (j ∷ js) (obj fs)
value_at-put_item_ne j k js v fs ne =
    let other : (k == j) ≡ false = ground (arith, eq_iff k j) in
    value_at-obj j js (put_item k v fs)
    ∙ ap (below js) (rw (item-put_item j k v fs, other) refl)
    ∙ sym (value_at-obj j js fs)

value_at-set_at :
    (k : String) (ks : List String) (v : Json) (fs : Fields)
    → value_at (k ∷ ks) (obj (set_at k ks v fs)) ≡ v
unfolding set_at
value_at-set_at k [] v fs = value_at-put_item_self k [] v fs ∙ (unfold value_at in refl)
value_at-set_at k (j ∷ ks) v fs =
    value_at-put_item_self k (j ∷ ks) (obj (set_at j ks v (dict_of (item k fs)))) fs
    ∙ value_at-set_at j ks v (dict_of (item k fs))

-- What is below a key, whether it holds a dictionary or not.
value_at-dict_of :
    (i : String) (js : List String) (o : Option Json)
    → value_at (i ∷ js) (obj (dict_of o)) ≡ elim o [ none ↦ null | some u ↦ value_at (i ∷ js) u ]
unfolding value_at child dict_of item
value_at-dict_of i js none = refl
value_at-dict_of i js (some null) = refl
value_at-dict_of i js (some (bool b)) = refl
value_at-dict_of i js (some (number z t)) = refl
value_at-dict_of i js (some (str s)) = refl
value_at-dict_of i js (some (arr xs)) = refl
value_at-dict_of i js (some (obj fs)) = refl

value_at-set_at_other :
    (j : String) (js : List String) (k : String) (ks : List String) (v : Json) (fs : Fields)
    → Apart j js k ks
    → value_at (j ∷ js) (obj (set_at k ks v fs)) ≡ value_at (j ∷ js) (obj fs)
unfolding Apart set_at
value_at-set_at_other j [] k [] v fs h = value_at-put_item_ne j k [] v fs h
value_at-set_at_other j [] k (l ∷ ks) v fs h = value_at-put_item_ne j k [] _ fs h
value_at-set_at_other j (i ∷ js) k [] v fs h = value_at-put_item_ne j k (i ∷ js) _ fs h
value_at-set_at_other j (i ∷ js) k (l ∷ ks) v fs (inl ne) =
    value_at-put_item_ne j k (i ∷ js) _ fs ne
value_at-set_at_other j (i ∷ js) k (l ∷ ks) v fs (inr (same, h)) =
    subst
      (λ x.
        value_at (x ∷ i ∷ js) (obj (put_item k (obj (set_at l ks v (dict_of (item k fs)))) fs))
        ≡ value_at (x ∷ i ∷ js) (obj fs))
      (sym same)
      (value_at-put_item_self k (i ∷ js) (obj (set_at l ks v (dict_of (item k fs)))) fs
        ∙ value_at-set_at_other i js l ks v (dict_of (item k fs)) h
        ∙ (unfold value_at child in value_at-dict_of i js (item k fs)))

assign_value-content :
    (j : JsonText) (k : String) (ks : List String) (v config : Json) (content : String)
    → assign_value j k ks v config ≡ saved content
    → (fs : Fields) × (config ≡ obj fs) × (content ≡ j.dumps (obj (set_at k ks v fs)))
unfolding assign_value
assign_value-content j k ks v null content e = ground arith
assign_value-content j k ks v (bool b) content e = ground arith
assign_value-content j k ks v (number z t) content e = ground arith
assign_value-content j k ks v (str s) content e = ground arith
assign_value-content j k ks v (arr xs) content e = ground arith
assign_value-content j k ks v (obj fs) content e = (fs, refl, ground arith)

-- A file that was saved holds the dictionary it held before with the value set in it.
set_loaded-content :
    (j : JsonText) (k : String) (ks : List String) (value : String) (o : Option Json)
    (content : String)
    → set_loaded j k ks value o ≡ saved content
    → (fs : Fields) × (o ≡ some (obj fs))
      × (content ≡ j.dumps (obj (set_at k ks (parsed j value) fs)))
unfolding set_loaded
set_loaded-content j k ks value none content e = ground arith
set_loaded-content j k ks value (some config) content e =
    elim (Bool-cases (is_env_key k ks && not (is_valid_env value))) [
      | inl invalid ↦ ground arith
      | inr valid ↦
          let e' : assign_value j k ks (parsed j value) config ≡ saved content = grind arith in
          let (fs, same, text) = assign_value-content j k ks (parsed j value) config content e' in
          (fs, ap some same, text)
    ]

abbrev path_of : String → List String
path_of key = (split_keys key).0 ∷ (split_keys key).1

set_config_value-content :
    (j : JsonText) (key value : String) (file : Option String) (content : String)
    → set_config_value j key value file ≡ saved content
    → (fs : Fields) × (load_config j file ≡ some (obj fs))
      × (content ≡ j.dumps (obj (set_at (split_keys key).0 (split_keys key).1 (parsed j value) fs)))
unfolding set_config_value
set_config_value-content j key value file content e =
    set_loaded-content j (split_keys key).0 (split_keys key).1 value (load_config j file) content e

get_config_value-load :
    (j : JsonText) (key : String) (file : Option String) (v : Json)
    → load_config j file ≡ some v
    → get_config_value j key file ≡ some (value_at (path_of key) v)
unfolding get_config_value
get_config_value-load j key file v e = rw (e) refl

load_config-dumps :
    (j : JsonText) (content : String) (v : Json)
    → content ≡ j.dumps v
    → load_config j (some content) ≡ some v
unfolding load_config
load_config-dumps j content v e = rw (e) (j.loads-dumps v)

-- A value that set_config_value saves under a dotted key is what get_config_value reads of the
-- key from the saved file.
pub get_config_value-set_config_value :
    (j : JsonText) (key value : String) (file : Option String) (content : String)
    → set_config_value j key value file ≡ saved content
    → get_config_value j key (some content) ≡ some (parsed j value)
get_config_value-set_config_value j key value file content e =
    let (fs, loaded, text) = set_config_value-content j key value file content e in
    get_config_value-load j key (some content) _ (load_config-dumps j content _ text)
    ∙ ap some (value_at-set_at (split_keys key).0 (split_keys key).1 (parsed j value) fs)

-- Saving a value under a dotted key changes the value of no key that parts ways with it before
-- either ends.
pub get_config_value-set_config_value_other :
    (j : JsonText) (key other value : String) (file : Option String) (content : String)
    → Apart (split_keys other).0 (split_keys other).1 (split_keys key).0 (split_keys key).1
    → set_config_value j key value file ≡ saved content
    → get_config_value j other (some content) ≡ get_config_value j other file
get_config_value-set_config_value_other j key other value file content apart e =
    let (fs, loaded, text) = set_config_value-content j key value file content e in
    get_config_value-load j other (some content) _ (load_config-dumps j content _ text)
    ∙ ap some (
        value_at-set_at_other (split_keys other).0 (split_keys other).1 (split_keys key).0
          (split_keys key).1 (parsed j value) fs apart)
    ∙ sym (get_config_value-load j other file (obj fs) loaded)
