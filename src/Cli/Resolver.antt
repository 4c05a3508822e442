-- ===== src/Cli/Resolver.antt =====
-- src/mob/cli/resolver.py: from a reference on the command line to the id of a resource. The list
-- that the API answers with is a function of the query parameters. A ClickException is a value that
-- names its case, without the wording. `str.isdigit` and `int` are taken on ASCII digits.
pub mod Laws
use mob.Prelude.{
  ℕ, zero, suc, ◌+◌, ◌-◌, String, ◌==◌, code, Bool, true, false, not, ◌&&◌, ◌||◌, Option, none,
  some, List, [], ◌∷◌, Assoc, lookup, length, get_elem?, filter, nat_eq, ltb, leb, is_empty,
  if◌then◌else◌,
}
use Prim.Native.Nat.{◌*◌}

pub record Item : Type 0 where
  pub id : String
  pub columns : Assoc String

pub data Resolution : Type 0 where
  found : String → Resolution
  unknown_type : String → Resolution
  empty_list : String → Resolution
  out_of_range : (position total : ℕ) → Resolution
  not_found : (resource_type name_field name : String) → Resolution
  ambiguous : (resource_type name_field name : String) (matches : List Item) → Resolution

pub record Config : Type 0 where
  pub list_path : String
  pub name_field : String
  pub filter_param : Option String

abbrev config : String → String → Option String → Option Config
config path name_field filter_param =
    some (record { list_path = path; name_field = name_field; filter_param = filter_param })

-- `_RESOURCE_CONFIG.get`
unfoldable pub resource_config : String → Option Config
resource_config t =
    if t == "organization"
    then config "/organizations" "identifier" none
    else if t == "domain"
    then config "/domains" "identifier" (some "organization_id")
    else if t == "user"
    then config "/users" "email" none
    else if t == "skill"
    then config "/skills" "name" none
    else if t == "group"
    then config "/groups" "name" (some "organization_id")
    else if t == "agent"
    then config "/agents" "name" (some "domain_id")
    else if t == "session"
    then config "/sessions" "name" (some "agent_id")
    else none

abbrev pub codes : String → List ℕ
codes String.[] = []
codes (String.◌∷◌ c s) = code c ∷ codes s

abbrev is_digit : ℕ → Bool
is_digit c = leb b'0' c && leb c b'9'

abbrev is_hex : ℕ → Bool
is_hex c = is_digit c || (leb b'a' c && leb c b'f') || (leb b'A' c && leb c b'F')

-- `[0-9a-f]{n}` and what follows it
unfoldable pub hex_run : ℕ → List ℕ → Option (List ℕ)
hex_run zero cs = some cs
hex_run (suc n) [] = none
hex_run (suc n) (c ∷ cs) = let rest = hex_run n cs in if is_hex c then rest else none

abbrev dash : List ℕ → Option (List ℕ)
dash [] = none
dash (c ∷ cs) = if nat_eq c b'-' then some cs else none

-- `$`: the end, or a last line feed
abbrev at_end : List ℕ → Bool
at_end [] = true
at_end (c ∷ []) = nat_eq c 10
at_end (c ∷ d ∷ cs) = false

infixl 5 ◌>>=◌
abbrev ◌>>=◌ : {A B : Type 0} → Option A → (A → Option B) → Option B
none >>= f = none
some a >>= f = f a

abbrev ends : Option (List ℕ) → Bool
ends none = false
ends (some cs) = at_end cs

-- `_UUID_RE.match`
unfoldable pub is_uuid : String → Bool
unfolding hex_run
is_uuid ref = ends (
    hex_run 8 (codes ref)
    >>= dash
    >>= hex_run 4
    >>= dash
    >>= hex_run 4
    >>= dash
    >>= hex_run 4
    >>= dash
    >>= hex_run 12)

unfoldable pub all_digits : List ℕ → Bool
all_digits [] = true
all_digits (c ∷ cs) = is_digit c && all_digits cs

-- `ref.isdigit()`
abbrev pub is_numeric : String → Bool
is_numeric ref = not (is_empty ref) && all_digits (codes ref)

-- `int(ref)`
unfoldable pub number_from : ℕ → List ℕ → ℕ
number_from n [] = n
number_from n (c ∷ cs) = number_from (n * 10 + (c - 48)) cs

-- `data[position - 1]["id"]`, after the test that the position is in range
unfoldable pub item_at : Option Item → (position total : ℕ) → Resolution
item_at none position total = out_of_range position total
item_at (some item) position total = found item.id

-- `_resolve_by_position`
unfoldable pub resolve_by_position : String → ℕ → List Item → Resolution
unfolding item_at
resolve_by_position resource_type position [] = empty_list resource_type
resolve_by_position resource_type position (x ∷ xs) =
    if ltb position 1 || ltb (length (x ∷ xs)) position
    then out_of_range position (length (x ∷ xs))
    else item_at (get_elem? (x ∷ xs) (position - 1)) position (length (x ∷ xs))

-- `item.get(name_field) == name`
abbrev is_text : String → Option String → Bool
is_text name none = false
is_text name (some v) = v == name

unfoldable pub matches : (name_field name : String) → List Item → List Item
unfolding lookup
matches name_field name xs = filter (λ item. is_text name (lookup name_field item.columns)) xs

-- The second search, without the filters, in the list of all items.
unfoldable pub match_all : (resource_type name_field name : String) → List Item → Resolution
match_all resource_type name_field name [] = not_found resource_type name_field name
match_all resource_type name_field name (m ∷ []) = found m.id
match_all resource_type name_field name (m ∷ n ∷ ms) =
    ambiguous resource_type name_field name (m ∷ n ∷ ms)

-- The cases of `_resolve_by_name` over the matches in the filtered list; `everywhere` are the
-- matches in the list of all items, if there were filters.
unfoldable pub match_scoped :
    (resource_type name_field name : String)
    → List Item
    → (everywhere : Option (List Item)) → Resolution
unfolding match_all
match_scoped resource_type name_field name (m ∷ []) everywhere = found m.id
match_scoped resource_type name_field name [] none = not_found resource_type name_field name
match_scoped resource_type name_field name [] (some ms) = match_all resource_type name_field name ms
match_scoped resource_type name_field name (m ∷ n ∷ ms) everywhere =
    ambiguous resource_type name_field name (m ∷ n ∷ ms)

module _ (api_get : (path : String) → Assoc String → List Item) where
  unfoldable pub everywhere : Config → String → Assoc String → Option (List Item)
  everywhere c name [] = none
  everywhere c name (kv ∷ params) = some (matches c.name_field name (api_get c.list_path []))

  -- `_resolve_by_name`
  unfoldable pub resolve_by_name : String → String → Config → Assoc String → Resolution
  unfolding match_scoped everywhere
  resolve_by_name resource_type name c params =
      match_scoped resource_type c.name_field name
        (matches c.name_field name (api_get c.list_path params)) (everywhere c name params)

  unfoldable pub resolve_with : String → String → Option Config → Assoc String → Resolution
  resolve_with resource_type ref none params = unknown_type resource_type
  resolve_with resource_type ref (some c) params =
      if is_uuid ref
      then found ref
      else if is_numeric ref
      then resolve_by_position resource_type (number_from 0 (codes ref))
          (api_get c.list_path params)
      else resolve_by_name resource_type ref c params

  -- The filters that are not None are `params`.
  unfoldable pub resolve_ref : (resource_type ref : String) (params : Assoc String) → Resolution
  unfolding resolve_with resource_config
  resolve_ref resource_type ref params =
      resolve_with resource_type ref (resource_config resource_type) params
