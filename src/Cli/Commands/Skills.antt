-- ===== src/Cli/Commands/Skills.antt =====
-- src/mob/cli/commands/skill.py. The flags are click's: `None` where the user gave none, and a
-- deletion is confirmed. `json.loads` of the metadata is a parameter, absent where it raises.
use mob.Prelude.{String, ◌<>◌, Option, none, some, [], ◌∷◌, List, put}
use mob.Backend.Routes.Values.{Data, Value, text}
use mob.Cli.Resolver.{Item, matches}
use mob.Cli.Commands.{Command, Resolve, with_id, given, crashed, request}

pub record SkillFlags : Type 0 where
  pub skill_md : Option String
  pub license : Option String
  pub compatibility : Option String
  pub metadata_json : Option String
  pub allowed_tools : Option String

abbrev with_value : Option Value → Data → Option Data
with_value none payload = none
with_value (some v) payload = some (put "metadata_json" v payload)

-- `if metadata_json: payload["metadata_json"] = json.loads(metadata_json)`
unfoldable pub with_metadata : (loads : String → Option Value) → Option String → Data → Option Data
unfolding put
with_metadata loads none payload = some payload
with_metadata loads (some String.[]) payload = some payload
with_metadata loads (some (String.◌∷◌ c s)) payload = with_value (loads (String.◌∷◌ c s)) payload

abbrev with_tools : Option String → Option Data → Option Data
with_tools allowed_tools none = none
with_tools allowed_tools (some payload) = some (given "allowed_tools" allowed_tools payload)

-- The fields that `create` and `edit` share; absent where the metadata is no JSON.
unfoldable pub skill_payload : (loads : String → Option Value) → SkillFlags → Data → Option Data
unfolding with_metadata given
skill_payload loads flags payload = with_tools flags.allowed_tools (
    with_metadata loads flags.metadata_json (
      given "compatibility" flags.compatibility
        (given "license" flags.license (given "skill_md" flags.skill_md payload))))

abbrev pub skills : Command
skills = request "GET" "/skills" [] []

unfoldable pub send_payload : (method path : String) → Option Data → Command
send_payload method path none = crashed
send_payload method path (some payload) = request method path payload []

unfoldable pub skill_create :
    (loads : String → Option Value) → (name description : String) → SkillFlags → Command
unfolding skill_payload send_payload
skill_create loads name description flags =
    send_payload "POST" "/skills"
      (skill_payload loads flags (("name", text name) ∷ ("description", text description) ∷ []))

module _ (resolve_ref : Resolve) (ref : String) where
  unfoldable pub skill_edit :
      (loads : String → Option Value) → (name description : Option String) → SkillFlags → Command
  unfolding skill_payload send_payload with_id given
  skill_edit loads name description flags = with_id (resolve_ref "skill" ref []) (λ skill_id.
      send_payload "PUT" ("/skills/" <> skill_id)
        (skill_payload loads flags (given "description" description (given "name" name []))))

  unfoldable pub skill_delete : Command
  unfolding with_id
  skill_delete =
      with_id (resolve_ref "skill" ref [])
        (λ skill_id. request "DELETE" ("/skills/" <> skill_id) [] [])

  unfoldable pub skill_show : Command
  unfolding with_id
  skill_show =
      with_id (resolve_ref "skill" ref [])
        (λ skill_id. request "GET" ("/skills/" <> skill_id) [] [])

-- The second request of `skill import`, given the skills of the same name.
unfoldable pub import_over : (data_ : Data) → (matching : List Item) → Command
import_over data_ [] = request "POST" "/skills" data_ []
import_over data_ (first ∷ others) = request "PUT" ("/skills/" <> first.id) data_ []

unfoldable pub skill_import : (name : String) (data_ : Data) → (existing : List Item) → Command
unfolding import_over matches
skill_import name data_ existing = import_over data_ (matches "name" name existing)
