-- ===== src/Cli/Importer.antt =====
-- src/mob/cli/skill_importer.py: the parser of a SKILL.md. The regular expression is matched as `re`
-- does, by backtracking; `yaml.safe_load` is a parameter, which is absent where it raises.
use mob.Prelude.{
  ℕ, String, Char, code, Bool, not, ◌&&◌, ◌||◌, Option, none, some, List, [], ◌∷◌, ◌++◌, nat_eq,
  leb, is_empty, if◌then◌else◌,
}
use mob.Json.{Json, Fields, null, str, obj, end, field, is_true}
use mob.Config.Items.{item, put_item}

-- `\s`, and what `str.strip` takes away
abbrev pub is_space : ℕ → Bool
is_space c =
    (leb 9 c && leb c 13)
    || (leb 28 c && leb c 32)
    || nat_eq c 133
    || nat_eq c 160
    || nat_eq c 5760
    || (leb 8192 c && leb c 8202)
    || nat_eq c 8232
    || nat_eq c 8233
    || nat_eq c 8239
    || nat_eq c 8287
    || nat_eq c 12288

-- What may follow `\s*\n`, the longest match first.
unfoldable pub after_space : String → List String
after_space String.[] = []
after_space (String.◌∷◌ c s) =
    let later = after_space s in
    if is_space (code c) then (if nat_eq (code c) 10 then later ++ s ∷ [] else later) else []

-- What follows a literal at the start of a text.
unfoldable pub after : String → String → Option String
after String.[] s = some s
after (String.◌∷◌ c literal) String.[] = none
after (String.◌∷◌ c literal) (String.◌∷◌ d s) =
    let rest = after literal s in if nat_eq (code c) (code d) then rest else none

unfoldable pub first_of : List String → Option String
first_of [] = none
first_of (s ∷ others) = some s

-- `\n---\s*\n` at the start of a text
unfoldable pub closing_of : Option String → Option String
unfolding after_space first_of
closing_of none = none
closing_of (some s) = first_of (after_space s)

abbrev longer : Char → Option (String × String) → Option (String × String)
longer c none = none
longer c (some (front, body)) = some (String.◌∷◌ c front, body)

abbrev close_or : Option String → Option (String × String) → Option (String × String)
close_or (some body) later = some ("", body)
close_or none later = later

-- `(.*?)\n---\s*\n(.*)`: the shortest front matter, and the body.
unfoldable pub split_front : String → Option (String × String)
unfolding after closing_of
split_front String.[] = none
split_front (String.◌∷◌ c s) =
    close_or (closing_of (after "\n---" (String.◌∷◌ c s))) (longer c (split_front s))

abbrev or_else_next : Option (String × String) → Option (String × String) → Option (String × String)
or_else_next (some m) later = some m
or_else_next none later = later

unfoldable pub first_split : List String → Option (String × String)
unfolding split_front
first_split [] = none
first_split (s ∷ others) = or_else_next (split_front s) (first_split others)

unfoldable pub match_after : Option String → Option (String × String)
unfolding after_space first_split
match_after none = none
match_after (some s) = first_split (after_space s)

-- `re.match(r"^---\s*\n(.*?)\n---\s*\n(.*)", content, re.DOTALL)`, its two groups.
unfoldable pub match_skill : String → Option (String × String)
unfolding after match_after
match_skill content = match_after (after "---" content)

unfoldable pub drop_space : String → String
drop_space String.[] = ""
drop_space (String.◌∷◌ c s) =
    let rest = drop_space s in if is_space (code c) then rest else String.◌∷◌ c s

-- A character in front of a text that has no space at its end.
abbrev unless_blank : Char → String → String
unless_blank c String.[] = if is_space (code c) then "" else String.◌∷◌ c ""
unless_blank c (String.◌∷◌ d s) = String.◌∷◌ c (String.◌∷◌ d s)

unfoldable pub drop_trailing : String → String
drop_trailing String.[] = ""
drop_trailing (String.◌∷◌ c s) = unless_blank c (drop_trailing s)

abbrev pub strip : String → String
strip s = drop_trailing (drop_space s)

-- A skill, a ValueError, or an exception of the YAML parser.
pub data Parsed : Type 0 where
  skill : Fields → Parsed
  value_error : (message : String) → Parsed
  yaml_error : Parsed

-- `if key in frontmatter: result[name] = frontmatter[key]`
abbrev copied : (key name : String) → Fields → Fields → Fields
copied key name frontmatter result = elim (item key frontmatter) [
  | none ↦ result
  | some v ↦ put_item name v result
]

unfoldable pub result_of : (name description : Json) → (body : String) → Fields → Fields
unfolding item put_item
result_of name description body frontmatter =
    let skill_md = if is_empty body then null else str body in
    copied "allowed-tools" "allowed_tools" frontmatter (
      copied "metadata" "metadata_json" frontmatter (
        copied "compatibility" "compatibility" frontmatter (
          copied "license" "license" frontmatter
            (field "name" name (field "description" description (field "skill_md" skill_md end))))))

-- `frontmatter.get(key)`
abbrev value_of : Option Json → Json
value_of none = null
value_of (some v) = v

unfoldable pub read_front : Option Json → (body : String) → Parsed
unfolding item result_of
read_front none body = yaml_error
read_front (some (obj frontmatter)) body =
    let name = value_of (item "name" frontmatter) in
    let description = value_of (item "description" frontmatter) in
    if not (is_true name)
    then value_error "SKILL.md frontmatter must include 'name'"
    else if not (is_true description)
    then value_error "SKILL.md frontmatter must include 'description'"
    else skill (result_of name description body frontmatter)
read_front (some v) body = value_error "YAML frontmatter must be a mapping"

unfoldable pub parse_match : (safe_load : String → Option Json) → Option (String × String) → Parsed
unfolding read_front drop_space drop_trailing
parse_match safe_load none =
    value_error "SKILL.md must contain YAML frontmatter between --- delimiters"
parse_match safe_load (some (front, body)) = read_front (safe_load front) (strip body)

unfoldable pub parse_skill_md : (safe_load : String → Option Json) → (content : String) → Parsed
unfolding match_skill parse_match
parse_skill_md safe_load content = parse_match safe_load (match_skill content)
