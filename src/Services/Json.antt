-- ===== src/Services/Json.antt =====
-- What the services use of Python's `json` on the columns `env_defaults`, `custom_config` and
-- `metadata_json`: dictionaries of texts, as association lists in insertion order. `loads` of a text
-- that is not the JSON of such a dictionary is `none`.
use mob.Prelude.{String, ◌≡◌, false, is_empty, Option, none, some, List, [], ◌∷◌}

abbrev pub Dict : Type 0
Dict = List (String × String)

pub record Json : Type 0 where
  pub dumps : Dict → String
  pub loads : String → Option Dict
  pub dumps_nonempty : (d : Dict) → is_empty (dumps d) ≡ false
  pub loads-dumps : (d : Dict) → loads (dumps d) ≡ some d

-- `json.dumps(d) if d else None`
abbrev pub dumps_given : Json → Option Dict → Option String
dumps_given j none = none
dumps_given j (some []) = none
dumps_given j (some (kv ∷ d)) = some (j.dumps (kv ∷ d))

-- The column after `if d is not None: x = json.dumps(d)`.
abbrev pub assigned_json : Json → Option Dict → Option String → Option String
assigned_json j none old = old
assigned_json j (some d) old = some (j.dumps d)

-- The column after `if s is not None: x = s`, for a column that may be NULL.
abbrev pub assigned_text : Option String → Option String → Option String
assigned_text none old = old
assigned_text (some s) old = some s
