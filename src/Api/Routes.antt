-- ===== src/Api/Routes.antt =====
-- src/mob/api/routes and the prefixes of src/mob/api/app.py: from a method and a path below /api/v1 to
-- the handler and the call that it makes. FastAPI, which matches a path against the patterns of the
-- decorators, is not part of the repository: paths are matched by their parts between the slashes.
use mob.Prelude.{ℕ, String, ◌==◌, Bool, ◌&&◌, if◌then◌else◌}
use mob.Backend.{Request}
use mob.Backend.Routes.Values.{
  Data, PathShape, other, all_of, one_of, part_of, pair_of, shape, split_path, ends_as,
}
use mob.Api.Schemas.{
  Endpoint, not_found, method_not_allowed, invalid, call, text_field, optional_field, anything,
  organization_create, name_update, domain_create, user_create, user_update, group_create,
  group_member_add, agent_create, agent_update, session_create, session_send_message, task_create,
  skill_create, skill_update,
}

-- The handlers of one path pattern: the first whose method fits.
abbrev pub on : Bool → Endpoint → Endpoint → Endpoint
on b here rest = if b then here else rest

-- The routers are asked in the order of `create_app`.
abbrev pub or_next : Endpoint → Endpoint → Endpoint
or_next not_found next = next
or_next method_not_allowed next = method_not_allowed
or_next invalid next = invalid
or_next (call r) next = call r

module _ (method : String) (body query : Data) where
  -- The routes that most resources have: a list, a creation, and a row.
  abbrev crud :
      (list create : Endpoint) (read update delete : String → Endpoint) (prefix : String)
      → PathShape
      → Endpoint
  crud list create read update delete prefix (all_of n) =
      if n == prefix
      then on (method == "GET") list (on (method == "POST") create method_not_allowed)
      else not_found
  crud list create read update delete prefix (one_of n id) =
      if n == prefix
      then on (method == "GET") (read id) (
          on (method == "PUT") (update id) (on (method == "DELETE") (delete id) method_not_allowed))
      else not_found
  crud list create read update delete prefix _ = not_found

  unfoldable pub organization_routes : PathShape → Endpoint
  organization_routes =
      crud (call Request.list_organizations)
        (organization_create body
          λ identifier name. call (Request.create_organization identifier name))
        (λ id. call (Request.get_organization id))
        (λ id. name_update body λ name. call (Request.update_organization id name))
        (λ id. call (Request.delete_organization id)) "organizations"

  unfoldable pub domain_routes : PathShape → Endpoint
  domain_routes =
      crud
        (optional_field "organization_id" anything query
          λ organization_id. call (Request.list_domains organization_id))
        (domain_create body
          λ suffix name organization_id. call (Request.create_domain suffix name organization_id))
        (λ id. call (Request.get_domain id))
        (λ id. name_update body λ name. call (Request.update_domain id name))
        (λ id. call (Request.delete_domain id)) "domains"

  unfoldable pub user_routes : PathShape → Endpoint
  user_routes =
      crud (call Request.list_users)
        (user_create body λ email name. call (Request.create_user email name))
        (λ id. call (Request.get_user id))
        (λ id. user_update body λ name email. call (Request.update_user id name email))
        (λ id. call (Request.delete_user id)) "users"

  group_crud : PathShape → Endpoint
  group_crud =
      crud
        (optional_field "organization_id" anything query
          λ organization_id. call (Request.list_groups organization_id))
        (group_create body λ name organization_id. call (Request.create_group name organization_id))
        (λ id. call (Request.get_group id))
        (λ id. name_update body λ name. call (Request.update_group id name))
        (λ id. call (Request.delete_group id)) "groups"

  unfoldable pub group_routes : PathShape → Endpoint
  unfolding group_crud
  group_routes (pair_of n group_id last user_id) =
      if n == "groups" && last == "members"
      then on (method == "DELETE") (call (Request.remove_member group_id user_id))
          method_not_allowed
      else not_found
  group_routes (part_of n group_id last) =
      if n == "groups" && ends_as "members" last
      then on (method == "POST")
          (group_member_add body λ user_id. call (Request.add_member group_id user_id))
          method_not_allowed
      else not_found
  group_routes (one_of n id) = group_crud (one_of n id)
  group_routes (all_of n) = group_crud (all_of n)
  group_routes other = not_found

  unfoldable pub agent_routes : PathShape → Endpoint
  agent_routes =
      crud
        (optional_field "domain_id" anything query
          λ domain_id. call (Request.list_agents domain_id))
        (agent_create body λ name template domain_id fields.
          call (Request.create_agent name template domain_id fields))
        (λ id. call (Request.get_agent id))
        (λ id.
          agent_update body
            λ name template fields. call (Request.update_agent id name template fields))
        (λ id. call (Request.delete_agent id)) "agents"

  -- The routes below one session; `tail` is the query parameter as a number. The new state of a
  -- session is a query parameter too.
  session_part : (id last : String) (tail : ℕ) → Endpoint
  session_part id last tail =
      if ends_as "send" last
      then on (method == "POST")
          (session_send_message body λ message. call (Request.send_message id message))
          method_not_allowed
      else if ends_as "logs" last
      then on (method == "GET") (call (Request.session_logs id tail)) method_not_allowed
      else if ends_as "stop" last
      then on (method == "POST") (call (Request.stop_session id)) method_not_allowed
      else if ends_as "state" last
      then on (method == "PUT")
          (text_field "state" anything query λ state. call (Request.update_session_state id state))
          method_not_allowed
      else not_found

  unfoldable pub session_routes : (tail : ℕ) → PathShape → Endpoint
  unfolding session_part
  session_routes tail (all_of n) =
      if n == "sessions"
      then on (method == "GET")
          (optional_field "agent_id" anything query λ agent_id.
            optional_field "state" anything query
              λ state. call (Request.list_sessions agent_id state))
          (on (method == "POST")
            (session_create body λ agent_id task_id name env_overrides.
              call (Request.create_session agent_id task_id name env_overrides))
            method_not_allowed)
      else not_found
  session_routes tail (one_of n id) =
      if n == "sessions"
      then on (method == "GET") (call (Request.get_session id)) method_not_allowed
      else not_found
  session_routes tail (part_of n id last) =
      if n == "sessions" then session_part id last tail else not_found
  session_routes tail _ = not_found

  unfoldable pub task_routes : PathShape → Endpoint
  task_routes (all_of n) =
      if n == "tasks"
      then on (method == "GET")
          (optional_field "agent_id" anything query λ agent_id. call (Request.list_tasks agent_id))
          (on (method == "POST")
            (task_create body λ instruction agent_id definition_of_done.
              call (Request.create_task instruction agent_id definition_of_done))
            method_not_allowed)
      else not_found
  task_routes (one_of n id) =
      if n == "tasks"
      then on (method == "GET") (call (Request.get_task id)) method_not_allowed
      else not_found
  task_routes _ = not_found

  unfoldable pub skill_routes : PathShape → Endpoint
  skill_routes =
      crud (call Request.list_skills)
        (skill_create body
          λ name description fields. call (Request.create_skill name description fields))
        (λ id. call (Request.get_skill id))
        (λ id.
          skill_update body
            λ name description fields. call (Request.update_skill id name description fields))
        (λ id. call (Request.delete_skill id)) "skills"

  unfoldable pub endpoint : (tail : ℕ) → (path : String) → Endpoint
  unfolding organization_routes domain_routes user_routes group_routes agent_routes session_routes
      task_routes skill_routes shape split_path
  endpoint tail path =
      let p = shape (split_path path) in
      or_next (organization_routes p) (
        or_next (domain_routes p) (
          or_next (user_routes p) (
            or_next (group_routes p) (
              or_next (agent_routes p)
                (or_next (session_routes tail p) (or_next (task_routes p) (skill_routes p)))))))
