-- ===== src/Backend/Routes.antt =====
-- src/mob/cli/local_backend.py, `_route`: from a method, a path, a JSON body and query parameters
-- to a request, resource by resource in the order of the source. Only values of the types that the
-- CLI sends are told apart; a value of another type, and a missing key of `data[...]`, is an
-- uncaught exception.
pub mod Values
use Values.{
  Value, Data, Route, unmatched, raised, untyped, call, required, optional, optional_dict,
  optional_texts, split_path, ends_as, PathShape, other, all_of, one_of, part_of, pair_of, shape,
  on,
}
use mob.Prelude.{
  ◌<>◌, ℕ, zero, suc, String, ◌==◌, Char, code, Bool, true, false, not, ◌&&◌, ◌||◌, Option, none,
  some, List, [], ◌∷◌, Assoc, lookup, nat_eq, is_empty, if◌then◌else◌,
}
use mob.Services.Agents.{AgentData}
use mob.Services.Skills.{SkillData}
use mob.Backend.{Request}

-- The first resource with a route; `unmatched` is the ValueError at the end.
abbrev pub or_next : Route → Route → Route
or_next unmatched next = next
or_next raised next = raised
or_next untyped next = untyped
or_next (call r) next = call r

module _ (method : String) (body params : Data) where
  -- Routes of the shape that most resources share: list and create, read, update, delete.
  abbrev crud :
      (list create : Route) (read update delete : String → Route) (name : String)
      → PathShape
      → Route
  crud list create read update delete name (all_of n) =
      if n == name
      then on (method == "GET") list (on (method == "POST") create unmatched)
      else unmatched
  crud list create read update delete name (one_of n id) =
      if n == name
      then on (method == "GET") (read id)
          (on (method == "PUT") (update id) (on (method == "DELETE") (delete id) unmatched))
      else unmatched
  crud list create read update delete name _ = unmatched

  unfoldable pub route_organizations : PathShape → Route
  route_organizations =
      crud (call Request.list_organizations)
        (required "identifier" body λ identifier.
          required "name" body λ name. call (Request.create_organization identifier name))
        (λ id. call (Request.get_organization id))
        (λ id. optional "name" body λ name. call (Request.update_organization id name))
        (λ id. call (Request.delete_organization id)) "organizations"

  unfoldable pub route_domains : PathShape → Route
  route_domains =
      crud
        (optional "organization_id" params
          λ organization_id. call (Request.list_domains organization_id))
        (required "identifier_suffix" body λ suffix. required "name" body λ name.
          required "organization_id" body
            λ organization_id. call (Request.create_domain suffix name organization_id))
        (λ id. call (Request.get_domain id))
        (λ id. optional "name" body λ name. call (Request.update_domain id name))
        (λ id. call (Request.delete_domain id)) "domains"

  unfoldable pub route_users : PathShape → Route
  route_users =
      crud (call Request.list_users)
        (required "email" body
          λ email. required "name" body λ name. call (Request.create_user email name))
        (λ id. call (Request.get_user id))
        (λ id.
          optional "name" body
            λ name. optional "email" body λ email. call (Request.update_user id name email))
        (λ id. call (Request.delete_user id)) "users"

  unfoldable pub route_group_list : PathShape → Route
  route_group_list =
      crud
        (optional "organization_id" params
          λ organization_id. call (Request.list_groups organization_id))
        (required "name" body λ name.
          required "organization_id" body
            λ organization_id. call (Request.create_group name organization_id))
        (λ id. call (Request.get_group id))
        (λ id. optional "name" body λ name. call (Request.update_group id name))
        (λ id. call (Request.delete_group id)) "groups"

  unfoldable pub route_groups : PathShape → Route
  unfolding route_group_list
  route_groups (pair_of n group_id last user_id) =
      if n == "groups" && last == "members"
      then on (method == "DELETE") (call (Request.remove_member group_id user_id)) unmatched
      else unmatched
  route_groups (part_of n group_id last) =
      if n == "groups" && ends_as "members" last
      then on (method == "POST")
          (required "user_id" body λ user_id. call (Request.add_member group_id user_id)) unmatched
      else unmatched
  route_groups (one_of n id) = route_group_list (one_of n id)
  route_groups (all_of n) = route_group_list (all_of n)
  route_groups other = unmatched

  -- The optional fields of an agent; `skill_ids` has a default on creation only.
  agent_fields : Option (List String) → (AgentData → Route) → Route
  agent_fields default f = optional "system_prompt" body λ system_prompt.
      optional "model_endpoint" body λ model_endpoint.
        optional_texts "skill_ids" default body λ skill_ids.
          optional_dict "env_defaults" body λ env_defaults.
            optional_dict "custom_config" body λ custom_config.
              optional "resource_cpu_limit" body λ cpu.
                optional "resource_memory_limit" body λ memory. f (record {
                  system_prompt = system_prompt;
                  model_endpoint = model_endpoint;
                  skill_ids = skill_ids;
                  env_defaults = env_defaults;
                  custom_config = custom_config;
                  resource_cpu_limit = cpu;
                  resource_memory_limit = memory;
                })

  unfoldable pub route_agents : PathShape → Route
  unfolding agent_fields
  route_agents =
      crud (optional "domain_id" params λ domain_id. call (Request.list_agents domain_id))
        (required "name" body λ name. required "agent_template" body λ template.
          required "domain_id" body λ domain_id.
            agent_fields (some [])
              λ fields. call (Request.create_agent name template domain_id fields))
        (λ id. call (Request.get_agent id))
        (λ id. optional "name" body λ name. optional "agent_template" body λ template.
          agent_fields none λ fields. call (Request.update_agent id name template fields))
        (λ id. call (Request.delete_agent id)) "agents"

  -- `int(params.get("tail", 100))`; the CLI sends the number as such.
  session_parts : (id last : String) → (tail : ℕ) → Route
  session_parts id last tail =
      if ends_as "send" last
      then on (method == "POST")
          (required "message" body λ message. call (Request.send_message id message)) unmatched
      else if ends_as "logs" last
      then on (method == "GET") (call (Request.session_logs id tail)) unmatched
      else if ends_as "stop" last
      then on (method == "POST") (call (Request.stop_session id)) unmatched
      else if ends_as "state" last
      then on (method == "PUT")
          (required "state" body λ state. call (Request.update_session_state id state)) unmatched
      else unmatched

  unfoldable pub route_sessions : (tail : ℕ) → PathShape → Route
  unfolding session_parts
  route_sessions tail (all_of n) =
      if n == "sessions"
      then on (method == "GET")
          (optional "agent_id" params λ agent_id.
            optional "state" params λ state. call (Request.list_sessions agent_id state))
          (on (method == "POST")
            (required "agent_id" body λ agent_id. optional "task_id" body λ task_id.
              optional "name" body λ name.
                optional_dict "env_overrides" body λ env_overrides.
                  call (Request.create_session agent_id task_id name env_overrides))
            unmatched)
      else unmatched
  route_sessions tail (part_of n id last) =
      if n == "sessions" then session_parts id last tail else unmatched
  route_sessions tail (one_of n id) =
      if n == "sessions"
      then on (method == "GET") (call (Request.get_session id)) unmatched
      else unmatched
  route_sessions tail _ = unmatched

  unfoldable pub route_tasks : PathShape → Route
  route_tasks (all_of n) =
      if n == "tasks"
      then on (method == "GET")
          (optional "agent_id" params λ agent_id. call (Request.list_tasks agent_id))
          (on (method == "POST")
            (required "instruction" body λ instruction. required "agent_id" body λ agent_id.
              optional "definition_of_done" body λ definition_of_done.
                call (Request.create_task instruction agent_id definition_of_done))
            unmatched)
      else unmatched
  route_tasks (one_of n id) =
      if n == "tasks"
      then on (method == "GET") (call (Request.get_task id)) unmatched
      else unmatched
  route_tasks _ = unmatched

  skill_fields : (SkillData → Route) → Route
  skill_fields f = optional "skill_md" body λ skill_md. optional "license" body λ license.
      optional "compatibility" body λ compatibility.
        optional_dict "metadata_json" body λ metadata_json.
          optional "allowed_tools" body λ allowed_tools. f (record {
            skill_md = skill_md;
            license = license;
            compatibility = compatibility;
            metadata_json = metadata_json;
            allowed_tools = allowed_tools;
          })

  unfoldable pub route_skills : PathShape → Route
  unfolding skill_fields
  route_skills =
      crud (call Request.list_skills)
        (required "name" body λ name.
          required "description" body λ description.
            skill_fields λ fields. call (Request.create_skill name description fields))
        (λ id. call (Request.get_skill id))
        (λ id. optional "name" body λ name. optional "description" body λ description.
          skill_fields λ fields. call (Request.update_skill id name description fields))
        (λ id. call (Request.delete_skill id)) "skills"

  unfoldable pub route : (tail : ℕ) → (path : String) → Route
  unfolding route_organizations route_domains route_users route_groups route_agents route_sessions
      route_tasks route_skills shape split_path required optional optional_dict optional_texts
  route tail path =
      let p = shape (split_path path) in
      or_next (route_organizations p) (
        or_next (route_domains p) (
          or_next (route_users p) (
            or_next (route_groups p) (
              or_next (route_agents p)
                (or_next (route_sessions tail p) (or_next (route_tasks p) (route_skills p)))))))
