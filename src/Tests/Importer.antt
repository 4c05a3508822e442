-- ===== src/Tests/Importer.antt =====
-- The parser of SKILL.md on texts.
use mob.Prelude.{String, ◌≡◌, refl, Option, none, some}
use mob.Json.{Json, str, obj, field, end}
use mob.Cli.Importer.{match_skill, parse_skill_md, skill}

-- A body may hold the delimiter again, and the front matter may be preceded by blank lines.
match_first : match_skill "--- \n\nname: x\n---\t\n\nbody\n---\n" ≡ some ("name: x", "body\n---\n")
unfolding match_skill
match_first = refl

match_unclosed : match_skill "---\nname: x\n--- body" ≡ none
unfolding match_skill
match_unclosed = refl

abbrev load : String → Option Json
load text = some (obj (field "name" (str text) (field "description" (str "d") end)))

parse_stripped :
    parse_skill_md load "---\nx\n---\n  body \n"
    ≡ skill
        (field "name" (str "x") (field "description" (str "d") (field "skill_md" (str "body") end)))
unfolding parse_skill_md
parse_stripped = refl
