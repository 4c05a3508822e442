-- ===== src/Services/Agents.antt =====
-- src/mob/services/agents.py
use mob.Prelude.{String, ◌<>◌, ◌==◌, ◌||◌, Option, none, some, List, [], assigned, or_else}
use mob.Models.{Agent}
use mob.Orm.{Orm, link_key}
use mob.Transaction.{
  Error, service_error, Service, agents, agent_skills, skills, pure, require, commit, find, select,
  insert, assign, remove, is_given, when, for_each, ◌>>=◌, ◌>>◌,
}
use mob.Services.Cascade.{delete_agent_row}
use mob.Services.Domains.{scoped}
use mob.Services.Json.{Json, Dict, dumps_given, assigned_json, assigned_text}

abbrev pub not_found : Error
not_found = service_error "Agent not found" 404

abbrev pub skill_not_found : String → Error
skill_not_found skill_id = service_error ("Skill '" <> (skill_id <> "' not found")) 404

-- The optional arguments that creation and update share.
pub record AgentData : Type 0 where
  pub system_prompt : Option String
  pub model_endpoint : Option String
  pub skill_ids : Option (List String)
  pub env_defaults : Option Dict
  pub custom_config : Option Dict
  pub resource_cpu_limit : Option String
  pub resource_memory_limit : Option String

abbrev pub new_agent : Json → (id name agent_template domain_id : String) → AgentData → Agent
new_agent j id name agent_template domain_id fields = record {
  id = id;
  name = name;
  system_prompt = fields.system_prompt;
  agent_template = agent_template;
  model_endpoint = fields.model_endpoint;
  env_defaults = dumps_given j fields.env_defaults;
  custom_config = dumps_given j fields.custom_config;
  resource_cpu_limit = fields.resource_cpu_limit;
  resource_memory_limit = fields.resource_memory_limit;
  domain_id = domain_id;
}

abbrev pub updated_agent : Json → (name agent_template : Option String) → AgentData → Agent → Agent
updated_agent j name agent_template fields agent = record {
  id = agent.id;
  name = assigned name agent.name;
  system_prompt = assigned_text fields.system_prompt agent.system_prompt;
  agent_template = assigned agent_template agent.agent_template;
  model_endpoint = assigned_text fields.model_endpoint agent.model_endpoint;
  env_defaults = assigned_json j fields.env_defaults agent.env_defaults;
  custom_config = assigned_json j fields.custom_config agent.custom_config;
  resource_cpu_limit = assigned_text fields.resource_cpu_limit agent.resource_cpu_limit;
  resource_memory_limit = assigned_text fields.resource_memory_limit agent.resource_memory_limit;
  domain_id = agent.domain_id;
}

module _ {o : Orm} where
  unfoldable pub list_agents : Option String → Service o (List Agent)
  list_agents domain_id = select agents (scoped domain_id (λ r. r.domain_id))

  -- One round of the loop over `skill_ids`.
  unfoldable pub link_skill : (agent_id skill_id : String) → Service o (Unit {0})
  link_skill agent_id skill_id = do
    found ← find skills skill_id
    skill ← require (skill_not_found skill_id) found
    insert agent_skills (record { agent_id = agent_id; skill_id = skill_id })

  unfoldable pub create_agent :
      Json → (id name agent_template domain_id : String) → AgentData → Service o Agent
  create_agent j id name agent_template domain_id fields = do
    let agent = new_agent j id name agent_template domain_id fields
    insert agents agent
    for_each (or_else fields.skill_ids []) (λ skill_id. link_skill agent.id skill_id)
    commit
    pure agent

  unfoldable pub get_agent : String → Service o Agent
  get_agent agent_id = do found ← find agents agent_id; require not_found found

  -- `if skill_ids is not None: ...`
  unfoldable pub replace_skills : String → Option (List String) → Service o (Unit {0})
  replace_skills agent_id none = pure tt
  replace_skills agent_id (some skill_ids) = do
    links ← select agent_skills (λ r. r.agent_id == agent_id)
    for_each links (λ r. remove agent_skills (link_key r))
    for_each skill_ids (λ skill_id. link_skill agent_id skill_id)

  unfoldable pub update_agent :
      Json → String → (name agent_template : Option String) → AgentData → Service o Agent
  update_agent j agent_id name agent_template fields = do
    found ← find agents agent_id
    agent ← require not_found found
    let agent' = updated_agent j name agent_template fields agent
    when
        (is_given name
          || is_given fields.system_prompt
          || is_given agent_template
          || is_given fields.model_endpoint
          || is_given fields.env_defaults
          || is_given fields.custom_config
          || is_given fields.resource_cpu_limit
          || is_given fields.resource_memory_limit)
        (assign agents agent')
    replace_skills agent_id fields.skill_ids
    commit
    pure agent'

  unfoldable pub delete_agent : String → Service o (Unit {0})
  delete_agent agent_id = do
    found ← find agents agent_id
    agent ← require not_found found
    delete_agent_row agent.id
    commit
