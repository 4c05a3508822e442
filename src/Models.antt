-- ===== src/Models.antt =====
-- The mapped classes of src/mob/models: one record for each table, its columns as fields. The
-- unique constraints that the columns declare are in `Clash`. The two timestamp columns of `TimestampMixin` are
-- left out: no operation reads them but the order of a listing, which `Orm` leaves open.
pub mod Clash
use mob.Prelude.{String, Option}

pub record Organization : Type 0 where
  pub id : String
  pub identifier : String
  pub name : String

pub record Domain : Type 0 where
  pub id : String
  pub identifier : String
  pub name : String
  pub organization_id : String

pub record User : Type 0 where
  pub id : String
  pub email : String
  pub name : String
  pub keycloak_id : Option String

pub record Group : Type 0 where
  pub id : String
  pub name : String
  pub organization_id : String

pub record GroupMember : Type 0 where
  pub id : String
  pub group_id : String
  pub user_id : String

-- `env_defaults` and `custom_config` are JSON texts.
pub record Agent : Type 0 where
  pub id : String
  pub name : String
  pub system_prompt : Option String
  pub agent_template : String
  pub model_endpoint : Option String
  pub env_defaults : Option String
  pub custom_config : Option String
  pub resource_cpu_limit : Option String
  pub resource_memory_limit : Option String
  pub domain_id : String

-- The primary key is the pair of both columns.
pub record AgentSkill : Type 0 where
  pub agent_id : String
  pub skill_id : String

pub record Skill : Type 0 where
  pub id : String
  pub name : String
  pub description : String
  pub skill_md : Option String
  pub license : Option String
  pub compatibility : Option String
  pub metadata_json : Option String
  pub allowed_tools : Option String

pub record Task : Type 0 where
  pub id : String
  pub instruction : String
  pub definition_of_done : Option String
  pub agent_id : String

pub data SessionState : Type 0 where
  pending starting idle busy finished failed : SessionState

pub record Session : Type 0 where
  pub id : String
  pub name : String
  pub agent_id : String
  pub state : SessionState
  pub pod_name : Option String
  pub task_id : Option String
  pub error_message : Option String

-- The `value` of a member of the enum.
abbrev pub value : SessionState → String
value pending = "pending"
value starting = "starting"
value idle = "idle"
value busy = "busy"
value finished = "finished"
value failed = "failed"
