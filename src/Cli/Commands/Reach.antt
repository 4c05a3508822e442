-- ===== src/Cli/Commands/Reach.antt =====
-- `delete` and `show` of src/mob/cli/commands against the routes of the API.
use mob.Prelude.{String, ◌<>◌, ◌≡◌, refl, ap, ◌∙◌, true, false, Option, [], ◌∷◌, Assoc, is_empty}
use mob.Backend.{Request}
use mob.Backend.Routes.Values.{split_path, shape}
use mob.Api.Schemas.{call}
use mob.Api.Routes.{endpoint}
use mob.Cli.Resolver.{found}
use mob.Cli.Commands.{Sent, send, Command, Resolve, with_id, filter_of}
use mob.Cli.Commands.Agents.{agent_delete, agent_show}
use mob.Cli.Commands.Overrides.{endpoint_of}
use mob.Cli.Commands.Skills.{skill_delete, skill_show}
use mob.Cli.Commands.Paths.{is_part, is_id_within, is_part_of_id, split_path-id, path-id}
use mob.Cli.Commands.Resources.{
  org_delete, org_show, user_delete, user_show, domain_delete, domain_show, group_delete,
  group_show,
}

pub data Kind : Type 0 where
  organization user domain group agent skill : Kind

pub data Action : Type 0 where
  delete show : Action

-- The name under which `resolve_ref` knows the resource, and its filters.
abbrev pub type_of : Kind → String
type_of organization = "organization"
type_of user = "user"
type_of domain = "domain"
type_of group = "group"
type_of agent = "agent"
type_of skill = "skill"

abbrev pub filters_of : Kind → (scope : Option String) → Assoc String
filters_of organization scope = []
filters_of user scope = []
filters_of domain scope = filter_of "organization_id" scope
filters_of group scope = filter_of "organization_id" scope
filters_of agent scope = filter_of "domain_id" scope
filters_of skill scope = []

abbrev pub command_of : Action → Kind → Resolve → (ref : String) → (scope : Option String) → Command
command_of delete organization resolve_ref ref scope = org_delete resolve_ref ref
command_of delete user resolve_ref ref scope = user_delete resolve_ref ref
command_of delete domain resolve_ref ref scope = domain_delete resolve_ref ref scope
command_of delete group resolve_ref ref scope = group_delete resolve_ref ref scope
command_of delete agent resolve_ref ref scope = agent_delete resolve_ref ref scope
command_of delete skill resolve_ref ref scope = skill_delete resolve_ref ref
command_of show organization resolve_ref ref scope = org_show resolve_ref ref
command_of show user resolve_ref ref scope = user_show resolve_ref ref
command_of show domain resolve_ref ref scope = domain_show resolve_ref ref scope
command_of show group resolve_ref ref scope = group_show resolve_ref ref scope
command_of show agent resolve_ref ref scope = agent_show resolve_ref ref scope
command_of show skill resolve_ref ref scope = skill_show resolve_ref ref

abbrev pub request_of : Action → Kind → (id : String) → Request
request_of delete organization id = Request.delete_organization id
request_of delete user id = Request.delete_user id
request_of delete domain id = Request.delete_domain id
request_of delete group id = Request.delete_group id
request_of delete agent id = Request.delete_agent id
request_of delete skill id = Request.delete_skill id
request_of show organization id = Request.get_organization id
request_of show user id = Request.get_user id
request_of show domain id = Request.get_domain id
request_of show group id = Request.get_group id
request_of show agent id = Request.get_agent id
request_of show skill id = Request.get_skill id

abbrev name_of : Kind → String
name_of organization = "organizations"
name_of user = "users"
name_of domain = "domains"
name_of group = "groups"
name_of agent = "agents"
name_of skill = "skills"

abbrev method_of : Action → String
method_of delete = "DELETE"
method_of show = "GET"

abbrev path_of : Kind → String → String
path_of kind id = (String.◌∷◌ "/" (name_of kind <> "/")) <> id

split_path-path_of :
    (kind : Kind) (id : String)
    → is_part id ≡ true
    → split_path (path_of kind id) ≡ "" ∷ name_of kind ∷ id ∷ []
unfolding is_part
split_path-path_of organization id h =
    ap split_path (path-id "organizations" id) ∙ split_path-id "organizations" id refl h
split_path-path_of user id h = ap split_path (path-id "users" id) ∙ split_path-id "users" id refl h
split_path-path_of domain id h =
    ap split_path (path-id "domains" id) ∙ split_path-id "domains" id refl h
split_path-path_of group id h =
    ap split_path (path-id "groups" id) ∙ split_path-id "groups" id refl h
split_path-path_of agent id h =
    ap split_path (path-id "agents" id) ∙ split_path-id "agents" id refl h
split_path-path_of skill id h =
    ap split_path (path-id "skills" id) ∙ split_path-id "skills" id refl h

endpoint-path_of :
    (action : Action) (kind : Kind) (id path : String)
    → is_empty id ≡ false
    → split_path path ≡ "" ∷ name_of kind ∷ id ∷ []
    → endpoint (method_of action) [] [] 100 path ≡ call (request_of action kind id)
unfolding endpoint shape
endpoint-path_of delete organization id path h e = rw (e, h) refl
endpoint-path_of delete user id path h e = rw (e, h) refl
endpoint-path_of delete domain id path h e = rw (e, h) refl
endpoint-path_of delete group id path h e = rw (e, h) refl
endpoint-path_of delete agent id path h e = rw (e, h) refl
endpoint-path_of delete skill id path h e = rw (e, h) refl
endpoint-path_of show organization id path h e = rw (e, h) refl
endpoint-path_of show user id path h e = rw (e, h) refl
endpoint-path_of show domain id path h e = rw (e, h) refl
endpoint-path_of show group id path h e = rw (e, h) refl
endpoint-path_of show agent id path h e = rw (e, h) refl
endpoint-path_of show skill id path h e = rw (e, h) refl

abbrev sent : Action → Kind → String → Sent
sent action kind id = record {
  method = method_of action;
  path = path_of kind id;
  body = [];
  params = [];
  tail = 100;
}

command_of-sends :
    (action : Action) (kind : Kind) (resolve_ref : Resolve) (ref id : String)
    (scope : Option String)
    → resolve_ref (type_of kind) ref (filters_of kind scope) ≡ found id
    → command_of action kind resolve_ref ref scope ≡ send (sent action kind id)
unfolding with_id org_delete org_show user_delete user_show domain_delete domain_show group_delete
    group_show agent_delete agent_show skill_delete skill_show
command_of-sends delete organization resolve_ref ref id scope e = rw (e) refl
command_of-sends delete user resolve_ref ref id scope e = rw (e) refl
command_of-sends delete domain resolve_ref ref id scope e = rw (e) refl
command_of-sends delete group resolve_ref ref id scope e = rw (e) refl
command_of-sends delete agent resolve_ref ref id scope e = rw (e) refl
command_of-sends delete skill resolve_ref ref id scope e = rw (e) refl
command_of-sends show organization resolve_ref ref id scope e = rw (e) refl
command_of-sends show user resolve_ref ref id scope e = rw (e) refl
command_of-sends show domain resolve_ref ref id scope e = rw (e) refl
command_of-sends show group resolve_ref ref id scope e = rw (e) refl
command_of-sends show agent resolve_ref ref id scope e = rw (e) refl
command_of-sends show skill resolve_ref ref id scope e = rw (e) refl

-- The delete and show commands of organizations, users, domains, groups, agents and skills, on a
-- reference that resolves to an id of 1 to 100 letters, digits, hyphens and underscores, send a
-- request that the API reads as the deletion or the read of that resource.
pub command_of-endpoint :
    (action : Action) (kind : Kind) (resolve_ref : Resolve) (ref id : String)
    (scope : Option String)
    → resolve_ref (type_of kind) ref (filters_of kind scope) ≡ found id
    → is_id_within 100 id ≡ true
    → is_empty id ≡ false
    → (s : Sent) × (command_of action kind resolve_ref ref scope ≡ send s)
      × (endpoint_of s ≡ call (request_of action kind id))
command_of-endpoint action kind resolve_ref ref id scope resolved plain filled = (
  sent action kind id,
  command_of-sends action kind resolve_ref ref id scope resolved,
  endpoint-path_of action kind id (path_of kind id) filled
      (split_path-path_of kind id (is_part_of_id 100 id plain)),
)
