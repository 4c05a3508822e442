-- ===== src/Cli/Commands/Agents.antt =====
-- src/mob/cli/commands/agent.py. The flags are click's: `None` where the user gave none.
use mob.Prelude.{
  String, code, ◌<>◌, not, ◌||◌, Option, none, some, List, [], ◌∷◌, Assoc, put, nat_eq, is_truthy,
  or_else, if◌then◌else◌,
}
use mob.Backend.Routes.Values.{Data, text, texts, dict}
use mob.Cli.Resolver.{Item, matches}
use mob.Cli.Commands.{Command, usage_error, Resolve, with_id, given, filter_of, request}

infixl 5 ◌>>=◌
abbrev pub ◌>>=◌ {ℓ κ} : {A : Type ℓ} {B : Type κ} → Option A → (A → Option B) → Option B
none >>= f = none
some a >>= f = f a

abbrev pub agents : (domain_id : Option String) → Command
agents domain_id = request "GET" "/agents" [] (given "domain_id" domain_id [])

-- The flags that `agent create` and `agent edit` share.
pub record Flags : Type 0 where
  pub system_prompt : Option String
  pub model_endpoint : Option String
  pub resource_cpu_limit : Option String
  pub resource_memory_limit : Option String

unfoldable pub with_flags : Flags → Data → Data
unfolding given
with_flags flags payload = given "resource_memory_limit" flags.resource_memory_limit (
    given "resource_cpu_limit" flags.resource_cpu_limit (
      given "model_endpoint" flags.model_endpoint
        (given "system_prompt" flags.system_prompt payload)))

unfoldable pub create_payload :
    (name agent_template domain_id : String) → List String → Flags → Data
unfolding with_flags
create_payload name agent_template domain_id skill_ids flags = with_flags flags (
    ("name", text name)
    ∷ ("agent_template", text agent_template)
    ∷ ("domain_id", text domain_id)
    ∷ ("skill_ids", texts skill_ids)
    ∷ [])

-- `agent create` without a file
unfoldable pub agent_create :
    (name agent_template domain_id : Option String) → List String → Flags → Command
unfolding create_payload
agent_create name agent_template domain_id skill_ids flags =
    if not (is_truthy name) || not (is_truthy agent_template) || not (is_truthy domain_id)
    then usage_error
    else request "POST" "/agents"
        (create_payload (or_else name "") (or_else agent_template "") (or_else domain_id "")
          skill_ids flags)
        []

unfoldable pub agent_edit :
    Resolve → (ref : String) → (domain_id name agent_template : Option String) → Flags → Command
unfolding with_id with_flags filter_of given
agent_edit resolve_ref ref domain_id name agent_template flags =
    with_id (resolve_ref "agent" ref (filter_of "domain_id" domain_id)) (λ agent_id.
      request "PUT" ("/agents/" <> agent_id)
        (with_flags flags (given "agent_template" agent_template (given "name" name []))) [])

unfoldable pub agent_delete : Resolve → (ref : String) → (domain_id : Option String) → Command
unfolding with_id filter_of
agent_delete resolve_ref ref domain_id =
    with_id (resolve_ref "agent" ref (filter_of "domain_id" domain_id))
      (λ agent_id. request "DELETE" ("/agents/" <> agent_id) [] [])

unfoldable pub agent_show : Resolve → (ref : String) → (domain_id : Option String) → Command
unfolding with_id filter_of
agent_show resolve_ref ref domain_id =
    with_id (resolve_ref "agent" ref (filter_of "domain_id" domain_id))
      (λ agent_id. request "GET" ("/agents/" <> agent_id) [] [])

-- The second request of `agent apply`, given the agents that the first one lists.
unfoldable pub agent_apply : (agent_name : String) (payload : Data) → List Item → Command
agent_apply agent_name payload [] = request "POST" "/agents" payload []
agent_apply agent_name payload (first ∷ others) = request "PUT" ("/agents/" <> first.id) payload []

-- `match = [a for a in existing if a.get("name") == agent_name]`
unfoldable pub apply_to : (agent_name : String) (payload : Data) → (existing : List Item) → Command
unfolding agent_apply matches
apply_to agent_name payload existing =
    agent_apply agent_name payload (matches "name" agent_name existing)

-- `item.split("=", 1)`, if there is a "="
unfoldable pub split_once : String → Option (String × String)
split_once String.[] = none
split_once (String.◌∷◌ c s) =
    let rest = split_once s in
    if nat_eq (code c) b'=' then some ("", s) else rest >>= (λ (k, v). some (String.◌∷◌ c k, v))

-- The overrides that the items of `--env` make, or a ClickException.
unfoldable pub overrides : List String → Assoc String → Option (Assoc String)
unfolding split_once put
overrides [] d = some d
overrides (item ∷ items) d = split_once item >>= (λ (k, v). overrides items (put k v d))

unfoldable pub env_payload : List String → Data → Option Data
unfolding overrides put
env_payload [] payload = some payload
env_payload (item ∷ items) payload = do
  d ← overrides (item ∷ items) []
  some (put "env_overrides" (dict d) payload)

unfoldable pub run_payload :
    (agent_id : String) → (task_id run_name : Option String) → List String → Option Data
unfolding env_payload given
run_payload agent_id task_id run_name env_overrides =
    env_payload env_overrides
      (given "name" run_name (given "task_id" task_id (("agent_id", text agent_id) ∷ [])))

unfoldable pub send_run : Option Data → Command
send_run none = usage_error
send_run (some payload) = request "POST" "/sessions" payload []

unfoldable pub agent_run_cmd :
    Resolve → (ref : String) → (domain_id task_id run_name : Option String) → List String → Command
unfolding with_id filter_of run_payload send_run
agent_run_cmd resolve_ref ref domain_id task_id run_name env_overrides =
    with_id (resolve_ref "agent" ref (filter_of "domain_id" domain_id))
      (λ agent_id. send_run (run_payload agent_id task_id run_name env_overrides))
