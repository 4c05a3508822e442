-- ===== src/Services/Sessions/Create.antt =====
-- src/mob/services/sessions.py, `create_session`: the row, the ConfigMap of the agent's skills and
-- the custom resource that the operator watches.
use mob.Prelude.{
  String, ◌<>◌, ◌==◌, Bool, Option, none, some, List, [], ◌∷◌, map, any, update, is_truthy, or_else,
  if◌then◌else◌,
}
use mob.Models.{pending, Session, Agent, AgentSkill, Skill}
use mob.Orm.{Orm}
use mob.Transaction.{
  Error, service_error, integrity_error, Result, ok, err, Service, sessions, agents, agent_skills,
  skills, pure, raise, require, commit, rollback, find, select, insert, assign, ◌>>=◌, ◌>>◌,
}
use mob.Services.Agents
use mob.Services.Json.{Json, Dict}
use mob.Services.Sessions.Live.{cr_name}
use mob.Services.Sessions.Env.{build_env_vars}

-- The body of the custom resource: its name and its `spec`. A limit of `none` is left out.
pub record Resource : Type 0 where
  pub name : String
  pub agent_id : String
  pub agent_name : String
  pub agent_template : String
  pub system_prompt : Option String
  pub model_endpoint : Option String
  pub task_id : Option String
  pub env_vars : Option Dict
  pub skills_configmap : Option String
  pub resource_cpu_limit : Option String
  pub resource_memory_limit : Option String

pub record ConfigMap : Type 0 where
  pub name : String
  pub content : Dict

-- The Kubernetes calls of one request. `create_config_map` tells whether the call (and the
-- configuration before it) succeeds; `create_resource` answers with the text of its exception.
pub record Creator : Type 0 where
  pub client : Bool
  pub create_config_map : ConfigMap → Bool
  pub create_resource : Resource → Option String

-- The arguments of the request, and what `generate_uuid` and `secrets.token_hex` draw.
pub record SessionData : Type 0 where
  pub id : String
  pub suffix : String
  pub agent_id : String
  pub task_id : Option String
  pub name : Option String
  pub env_overrides : Option Dict

-- `if not name: name = f"{agent.name}-{suffix}"`
unfoldable pub session_name : Agent → SessionData → String
session_name agent fields =
    if is_truthy fields.name then or_else fields.name "" else agent.name <> ("-" <> fields.suffix)

unfoldable pub new_session : Agent → SessionData → Session
unfolding session_name
new_session agent fields = record {
  id = fields.id;
  name = session_name agent fields;
  agent_id = fields.agent_id;
  state = pending;
  pod_name = none;
  task_id = fields.task_id;
  error_message = none;
}

abbrev pub name_taken : String → Error
name_taken name = service_error ("Session name '" <> (name <> "' already exists")) 409

module _ {o : Orm} where
  -- `except IntegrityError: ...`; any other result passes.
  unfoldable pub except_integrity : Service o (Unit {0}) → Result (Unit {0}) → Service o (Unit {0})
  except_integrity handler (ok a) s = (ok a, s)
  except_integrity handler (err integrity_error) s = handler s
  except_integrity handler (err e) s = (err e, s)

  unfoldable pub try_integrity : Service o (Unit {0}) → Service o (Unit {0}) → Service o (Unit {0})
  unfolding except_integrity
  try_integrity body handler s = let (r, s') = body s in except_integrity handler r s'

  unfoldable pub save_session : Session → Service o (Unit {0})
  unfolding try_integrity ◌>>=◌ insert commit rollback raise
  save_session sess =
      try_integrity (insert sessions sess >> commit) (rollback >> raise (name_taken sess.name))

-- The file of a skill: its front matter and its text.
unfoldable pub skill_file : Skill → String × String
skill_file sk = (
  sk.name <> ".md",
  "---\nname: "
      <> (sk.name
          <> ("\ndescription: " <> (sk.description <> ("\n---\n" <> or_else sk.skill_md "")))),
)

-- The ConfigMap to create, if the agent has skills.
unfoldable pub skills_config_map : String → List Skill → Option ConfigMap
unfolding skill_file update
skills_config_map name [] = none
skills_config_map name (sk ∷ sks) =
    some (record { name = "mob-skills-" <> name; content = update [] (map skill_file (sk ∷ sks)) })

-- The name that the resource refers to: that of a ConfigMap whose creation did not fail.
unfoldable pub created_name : Creator → Option ConfigMap → Option String
created_name k8s none = none
created_name k8s (some cm) = if k8s.create_config_map cm then some cm.name else none

-- `x if x else None`
abbrev pub truthy : Option String → Option String
truthy o = if is_truthy o then o else none

unfoldable pub resource_of : Agent → SessionData → Option Dict → Option String → Resource
unfolding cr_name
resource_of agent fields env_vars skills_configmap = record {
  name = cr_name fields.id;
  agent_id = agent.id;
  agent_name = agent.name;
  agent_template = agent.agent_template;
  system_prompt = agent.system_prompt;
  model_endpoint = agent.model_endpoint;
  task_id = truthy fields.task_id;
  env_vars = env_vars;
  skills_configmap = skills_configmap;
  resource_cpu_limit = truthy agent.resource_cpu_limit;
  resource_memory_limit = truthy agent.resource_memory_limit;
}

-- The text of the exception of the `try` block around the custom resource, if there is one. The
-- text of an exception of `json.loads` is a parameter.
unfoldable pub resource_failure :
    Creator
    → (bad_json : String) → Agent
    → SessionData
    → Option String
    → Option (Option Dict)
    → Option String
unfolding resource_of
resource_failure k8s bad_json agent fields configmap none = some bad_json
resource_failure k8s bad_json agent fields configmap (some env_vars) =
    k8s.create_resource (resource_of agent fields env_vars configmap)

-- The skills of the links, as `select(Skill).where(Skill.id.in_(skill_ids))` finds them.
abbrev pub is_linked : List AgentSkill → Skill → Bool
is_linked links sk = any (λ l. l.skill_id == sk.id) links

module _ {o : Orm} where
  unfoldable pub load_skills : List AgentSkill → Service o (List Skill)
  load_skills [] = pure []
  load_skills (l ∷ links) = select skills (is_linked (l ∷ links))

  -- `except Exception as e`: the failure is written to the row.
  unfoldable pub record_failure : Session → Option String → Service o Session
  record_failure sess none = pure sess
  record_failure sess (some text) = do
    let sess' = record sess { error_message = some ("CR creation failed: " <> text) }
    assign sessions sess'
    commit
    pure sess'

module _ {o : Orm} (j : Json) (upper : String → String) (k8s : Creator) (bad_json : String) where
  -- What follows the saving of the row: the ConfigMap and the custom resource.
  unfoldable pub publish_session : SessionData → Agent → Session → Service o Session
  publish_session fields agent sess = do
    links ← select agent_skills (λ r. r.agent_id == fields.agent_id)
    sks ← load_skills links
    let configmap = created_name k8s (skills_config_map sess.name sks)
    let env_vars = build_env_vars j upper agent fields.env_overrides
    record_failure sess
        (if k8s.client then resource_failure k8s bad_json agent fields configmap env_vars else none)

  unfoldable pub create_session : SessionData → Service o Session
  create_session fields = do
    found ← find agents fields.agent_id
    agent ← require Agents.not_found found
    let sess = new_session agent fields
    save_session sess
    publish_session fields agent sess
