-- ===== src/Backend.antt =====
-- src/mob/cli/local_backend.py: the requests of the CLI in local mode, and the service that each
-- calls. A request is what a method, a path, a body and query parameters name.
pub mod Routes
pub mod Atomicity
use mob.Prelude.{ℕ, String, Bool, if◌then◌else◌, Option, none, some, List, Assoc}
use mob.Models.{Organization, Domain, User, Group, Agent, Skill, Task, Session}
use mob.Orm.{Orm, Db}
use mob.Transaction.{Service, uncaught, raise, Result, ok, err, pure, ◌>>=◌}
use mob.Json as Reply
use mob.Services.Json.{Json}
use mob.Services.Organizations
use mob.Services.Domains
use mob.Services.Users
use mob.Services.Groups
use mob.Services.Agents
use mob.Services.Agents.{AgentData}
use mob.Services.Skills
use mob.Services.Skills.{SkillData}
use mob.Services.Tasks
use mob.Services.Sessions.Live
use mob.Services.Sessions.Live.{Cluster, Status}
use mob.Services.Sessions.Control
use mob.Services.Sessions.Create
use mob.Services.Sessions.Create.{Creator, SessionData}
use mob.Services.Sessions.Send
use mob.Services.Sessions.Send.{Network}

-- What `generate_uuid` and `secrets.token_hex` draw while one request runs.
pub record Draw : Type 0 where
  pub id : String
  pub second_id : String
  pub third_id : String
  pub suffix : String

pub data Request : Type 0 where
  list_organizations : Request
  create_organization : (identifier name : String) → Request
  get_organization : String → Request
  update_organization : String → Option String → Request
  delete_organization : String → Request
  list_domains : Option String → Request
  create_domain : (suffix name organization_id : String) → Request
  get_domain : String → Request
  update_domain : String → Option String → Request
  delete_domain : String → Request
  list_users : Request
  create_user : (email name : String) → Request
  get_user : String → Request
  update_user : String → (name email : Option String) → Request
  delete_user : String → Request
  list_groups : Option String → Request
  create_group : (name organization_id : String) → Request
  remove_member : (group_id user_id : String) → Request
  add_member : (group_id user_id : String) → Request
  get_group : String → Request
  update_group : String → Option String → Request
  delete_group : String → Request
  list_agents : Option String → Request
  create_agent : (name agent_template domain_id : String) → AgentData → Request
  get_agent : String → Request
  update_agent : String → (name agent_template : Option String) → AgentData → Request
  delete_agent : String → Request
  list_sessions : (agent_id state : Option String) → Request
  create_session :
      (agent_id : String) (task_id name : Option String) → Option (Assoc String) → Request
  send_message : (session_id message : String) → Request
  session_logs : String → ℕ → Request
  stop_session : String → Request
  update_session_state : (session_id state : String) → Request
  get_session : String → Request
  list_tasks : Option String → Request
  create_task : (instruction agent_id : String) → Option String → Request
  get_task : String → Request
  list_skills : Request
  create_skill : (name description : String) → SkillData → Request
  get_skill : String → Request
  update_skill : String → (name description : Option String) → SkillData → Request
  delete_skill : String → Request

-- What a request answers with: models, which the schemas convert, or what needs no conversion.
pub data Response : Type 0 where
  nothing : Response
  added : Response
  organization : Organization → Response
  organizations : List Organization → Response
  domain : Domain → Response
  domains : List Domain → Response
  user : User → Response
  users : List User → Response
  group : Group → Response
  groups : List Group → Response
  agent : Agent → Response
  agents : List Agent → Response
  session : Session → Response
  sessions : List Session → Response
  answer : Reply.Json → Response
  logs : List String → Status → Response
  task : Task → Response
  tasks : List Task → Response
  skill : Skill → Response
  skills : List Skill → Response

-- Everything outside the repository that a request meets. `converts` is the verdict of pydantic on a
-- model that a response schema of src/mob/schemas.py is given.
pub record World : Type 0 where
  pub json : Json
  pub upper : String → String
  pub cluster : Cluster
  pub creator : Creator
  pub network : Network
  pub bad_json : String
  pub converts : Response → Bool
  pub draw : Draw

module _ {o : Orm} where
  -- `_to_dict` and `_to_list`, and the `response_model` of the API: behind the service, whose commit
  -- stays. A ValidationError is caught nowhere.
  unfoldable pub convert : World → Response → Service o Response
  unfolding pure raise
  convert w nothing = pure nothing
  convert w added = pure added
  convert w (answer reply) = pure (answer reply)
  convert w (logs lines status) = pure (logs lines status)
  convert w r = if w.converts r then pure r else raise uncaught

  abbrev pub answering : {A : Type 0} → World → Service o A → (A → Response) → Service o Response
  answering w m f = m >>= λ a. convert w (f a)

  -- `send_message` reads one row; its effects on the outside are those of `Sessions.Send`.
  unfoldable pub send : World → (session_id message : String) → Service o Reply.Json
  send w session_id message s =
      ((Send.send_message w.cluster w.network s.current session_id message).0, s)

  unfoldable pub perform : World → Request → Service o Response
  perform w list_organizations = answering w Organizations.list_organizations organizations
  perform w (create_organization identifier name) =
      answering w
        (Organizations.create_organization w.draw.id w.draw.second_id w.draw.third_id identifier
          name)
        organization
  perform w (get_organization id) = answering w (Organizations.get_organization id) organization
  perform w (update_organization id name) =
      answering w (Organizations.update_organization id name) organization
  perform w (delete_organization id) =
      answering w (Organizations.delete_organization id) (λ _. nothing)
  perform w (list_domains organization_id) =
      answering w (Domains.list_domains organization_id) domains
  perform w (create_domain suffix name organization_id) =
      answering w (Domains.create_domain w.draw.id w.draw.second_id suffix name organization_id)
        domain
  perform w (get_domain id) = answering w (Domains.get_domain id) domain
  perform w (update_domain id name) = answering w (Domains.update_domain id name) domain
  perform w (delete_domain id) = answering w (Domains.delete_domain id) (λ _. nothing)
  perform w list_users = answering w Users.list_users users
  perform w (create_user email name) = answering w (Users.create_user w.draw.id email name) user
  perform w (get_user id) = answering w (Users.get_user id) user
  perform w (update_user id name email) = answering w (Users.update_user id name email) user
  perform w (delete_user id) = answering w (Users.delete_user id) (λ _. nothing)
  perform w (list_groups organization_id) = answering w (Groups.list_groups organization_id) groups
  perform w (create_group name organization_id) =
      answering w (Groups.create_group w.draw.id name organization_id) group
  perform w (remove_member group_id user_id) =
      answering w (Groups.remove_member group_id user_id) (λ _. nothing)
  perform w (add_member group_id user_id) =
      answering w (Groups.add_member w.draw.id group_id user_id) (λ _. added)
  perform w (get_group id) = answering w (Groups.get_group id) group
  perform w (update_group id name) = answering w (Groups.update_group id name) group
  perform w (delete_group id) = answering w (Groups.delete_group id) (λ _. nothing)
  perform w (list_agents domain_id) = answering w (Agents.list_agents domain_id) agents
  perform w (create_agent name template domain_id fields) =
      answering w (Agents.create_agent w.json w.draw.id name template domain_id fields) agent
  perform w (get_agent id) = answering w (Agents.get_agent id) agent
  perform w (update_agent id name template fields) =
      answering w (Agents.update_agent w.json id name template fields) agent
  perform w (delete_agent id) = answering w (Agents.delete_agent id) (λ _. nothing)
  perform w (list_sessions agent_id state) =
      answering w (Live.list_sessions w.cluster agent_id state) sessions
  perform w (create_session agent_id task_id name env_overrides) =
      answering w
        (Create.create_session w.json w.upper w.creator w.bad_json (record {
          id = w.draw.id;
          suffix = w.draw.suffix;
          agent_id = agent_id;
          task_id = task_id;
          name = name;
          env_overrides = env_overrides;
        }))
        session
  perform w (send_message session_id message) = answering w (send w session_id message) answer
  perform w (session_logs session_id tail) =
      let (lines, status) = Live.get_session_logs w.cluster session_id tail in
      pure (logs lines status)
  perform w (stop_session id) = answering w (Control.stop_session id) session
  perform w (update_session_state id state) =
      answering w (Control.update_session_state id state) session
  perform w (get_session id) = answering w (Live.get_session w.cluster id) session
  perform w (list_tasks agent_id) = answering w (Tasks.list_tasks agent_id) tasks
  perform w (create_task instruction agent_id definition_of_done) =
      answering w (Tasks.create_task w.draw.id instruction agent_id definition_of_done) task
  perform w (get_task id) = answering w (Tasks.get_task id) task
  perform w list_skills = answering w Skills.list_skills skills
  perform w (create_skill name description fields) =
      answering w (Skills.create_skill w.json w.draw.id name description fields) skill
  perform w (get_skill id) = answering w (Skills.get_skill id) skill
  perform w (update_skill id name description fields) =
      answering w (Skills.update_skill w.json id name description fields) skill
  perform w (delete_skill id) = answering w (Skills.delete_skill id) (λ _. nothing)
