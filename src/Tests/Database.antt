-- ===== src/Tests/Database.antt =====
-- A database in memory with one agent and two sessions, on which the examples run.
use mob.Prelude.{String, ◌==◌, eq_iff, ◌≡◌, ◌↔◌, Bool, true, ◌&&◌, none, [], ◌∷◌, arith}
use mob.Models.{SessionState, idle, finished, Session, Agent}
use mob.Models.Clash
use mob.Orm.{Orm, Db, link_key}
use mob.Orm.Memory.{memory}

abbrev same_link : String × String → String × String → Bool
same_link (a, b) (c, d) = a == c && b == d

pub same_link_iff : (j k : String × String) → (same_link j k ≡ true) ↔ (j ≡ k)
same_link_iff (a, b) (c, d) = ground (arith, eq_iff a c, eq_iff b d)

abbrev pub in_memory : Orm
in_memory = record {
  organizations = memory (λ r. r.id) (λ j k. j == k) eq_iff Clash.organization;
  domains = memory (λ r. r.id) (λ j k. j == k) eq_iff Clash.domain;
  users = memory (λ r. r.id) (λ j k. j == k) eq_iff Clash.user;
  groups = memory (λ r. r.id) (λ j k. j == k) eq_iff Clash.group;
  group_members = memory (λ r. r.id) (λ j k. j == k) eq_iff Clash.group_member;
  agents = memory (λ r. r.id) (λ j k. j == k) eq_iff Clash.unconstrained;
  agent_skills = memory link_key same_link same_link_iff Clash.unconstrained;
  skills = memory (λ r. r.id) (λ j k. j == k) eq_iff Clash.skill;
  tasks = memory (λ r. r.id) (λ j k. j == k) eq_iff Clash.unconstrained;
  sessions = memory (λ r. r.id) (λ j k. j == k) eq_iff Clash.session;
}

abbrev pub robot : Agent
robot = record {
  id = "a1";
  name = "robot";
  system_prompt = none;
  agent_template = "base";
  model_endpoint = none;
  env_defaults = none;
  custom_config = none;
  resource_cpu_limit = none;
  resource_memory_limit = none;
  domain_id = "d1";
}

abbrev pub session_at : (id name : String) → SessionState → Session
session_at id name state = record {
  id = id;
  name = name;
  agent_id = "a1";
  state = state;
  pod_name = none;
  task_id = none;
  error_message = none;
}

abbrev pub old_session : Session
old_session = session_at "s1" "old" finished

abbrev pub live_session : Session
live_session = session_at "s2" "live" idle

abbrev pub stored : Db in_memory
stored = record {
  organizations = [];
  domains = [];
  users = [];
  groups = [];
  group_members = [];
  agents = robot ∷ [];
  agent_skills = [];
  skills = [];
  tasks = [];
  sessions = old_session ∷ live_session ∷ [];
}
