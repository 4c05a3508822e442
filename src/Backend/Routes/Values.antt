-- ===== src/Backend/Routes/Values.antt =====
-- src/mob/cli/local_backend.py, `_route`: how it reads a value of the body, and the paths its
-- patterns tell apart.
use mob.Prelude.{
  ◌<>◌, String, ◌==◌, code, Bool, not, ◌&&◌, ◌||◌, Option, none, some, List, [], ◌∷◌, Assoc, lookup,
  nat_eq, is_empty, if◌then◌else◌,
}
use mob.Backend.{Request}

-- A JSON value of a body; `mixed` is every other one: a number, a truth value, and a list or a
-- dictionary that holds more than texts.
pub data Value : Type 0 where
  null : Value
  text : String → Value
  texts : List String → Value
  dict : Assoc String → Value
  mixed : Value

abbrev pub Data : Type 0
Data = Assoc Value

-- No route, an exception while the arguments are read, a value of another type than the service
-- declares, or a request. Nothing tests the types of the values in local mode; the services are
-- modelled at the types that they declare, so an untyped request is followed no further.
pub data Route : Type 0 where
  unmatched : Route
  raised : Route
  untyped : Route
  call : Request → Route

-- A value that is there, as the service takes it.
unfoldable pub read_text : Option Value → (String → Route) → Route
read_text (some (text s)) f = f s
read_text none f = raised
read_text (some _) f = untyped

-- A value that may be missing or null.
unfoldable pub read_optional : Option Value → (Option String → Route) → Route
read_optional none f = f none
read_optional (some null) f = f none
read_optional (some (text s)) f = f (some s)
read_optional (some _) f = untyped

unfoldable pub read_dict : Option Value → (Option (Assoc String) → Route) → Route
read_dict none f = f none
read_dict (some null) f = f none
read_dict (some (dict d)) f = f (some d)
read_dict (some _) f = untyped

unfoldable pub read_texts :
    Option (List String) → Option Value → (Option (List String) → Route) → Route
read_texts default none f = f default
read_texts default (some null) f = f none
read_texts default (some (texts l)) f = f (some l)
read_texts default (some _) f = untyped

-- `data[key]`, for a text
unfoldable pub required : String → Data → (String → Route) → Route
unfolding lookup read_text
required key body f = read_text (lookup key body) f

-- `data.get(key)`
unfoldable pub optional : String → Data → (Option String → Route) → Route
unfolding lookup read_optional
optional key body f = read_optional (lookup key body) f

unfoldable pub optional_dict : String → Data → (Option (Assoc String) → Route) → Route
unfolding lookup read_dict
optional_dict key body f = read_dict (lookup key body) f

-- `data.get(key, default)` for a list of texts
unfoldable pub optional_texts :
    String → Option (List String) → Data → (Option (List String) → Route) → Route
unfolding lookup read_texts
optional_texts key default body f = read_texts default (lookup key body) f

-- `path` in parts between the slashes
unfoldable pub split_from : String → String → List String
split_from part String.[] = part ∷ []
split_from part (String.◌∷◌ c s) =
    let closed = part ∷ split_from "" s in
    let longer = split_from (part <> String.◌∷◌ c "") s in
    if nat_eq (code c) b'/' then closed else longer

unfoldable pub split_path : String → List String
unfolding split_from
split_path path = split_from "" path

-- A last part that a pattern fixes: `$` also matches in front of a final line feed.
abbrev pub ends_as : String → String → Bool
ends_as name part = part == name || part == name <> "\n"

-- What the parts of a path are: `/name`, `/name/<id>`, `/name/<id>/last`, `/name/<id>/last/<id>`.
pub data PathShape : Type 0 where
  other : PathShape
  all_of : String → PathShape
  one_of : (name id : String) → PathShape
  part_of : (name id last : String) → PathShape
  pair_of : (name id last second : String) → PathShape

unfoldable pub shape : List String → PathShape
shape (a ∷ b ∷ []) = if is_empty a then all_of b else other
shape (a ∷ b ∷ c ∷ []) = if is_empty a && not (is_empty c) then one_of b c else other
shape (a ∷ b ∷ c ∷ d ∷ []) = if is_empty a && not (is_empty c) then part_of b c d else other
shape (a ∷ b ∷ c ∷ d ∷ e ∷ []) =
    if is_empty a && not (is_empty c) && not (is_empty e) then pair_of b c d e else other
shape _ = other

-- `if method == m: return ...`, else the next test
abbrev pub on : Bool → Route → Route → Route
on b r rest = if b then r else rest
