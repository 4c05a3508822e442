-- ===== src/Orm.antt =====
-- What the services use of SQLAlchemy: the interface of a mapped class, and the database as a
-- product of one table for each class. SQLAlchemy is not part of the repository, so both the
-- tables and the operations are abstract; the laws are its documented behaviour.
pub mod Mapped
pub mod Memory
use Mapped.{Rows}
use mob.Prelude.{String}
use mob.Models.{
  Organization, Domain, User, Group, GroupMember, Agent, AgentSkill, Skill, Task, Session,
}
use mob.Models.Clash

abbrev pub link_key : AgentSkill → String × String
link_key l = (l.agent_id, l.skill_id)

pub record Orm : Type 1 where
  pub organizations : Rows Organization String (λ r. r.id) Clash.organization
  pub domains : Rows Domain String (λ r. r.id) Clash.domain
  pub users : Rows User String (λ r. r.id) Clash.user
  pub groups : Rows Group String (λ r. r.id) Clash.group
  pub group_members : Rows GroupMember String (λ r. r.id) Clash.group_member
  pub agents : Rows Agent String (λ r. r.id) Clash.unconstrained
  pub agent_skills : Rows AgentSkill (String × String) link_key Clash.unconstrained
  pub skills : Rows Skill String (λ r. r.id) Clash.skill
  pub tasks : Rows Task String (λ r. r.id) Clash.unconstrained
  pub sessions : Rows Session String (λ r. r.id) Clash.session

-- The whole database.
pub record Db (o : Orm) : Type 0 where
  pub organizations : o.organizations.Table
  pub domains : o.domains.Table
  pub users : o.users.Table
  pub groups : o.groups.Table
  pub group_members : o.group_members.Table
  pub agents : o.agents.Table
  pub agent_skills : o.agent_skills.Table
  pub skills : o.skills.Table
  pub tasks : o.tasks.Table
  pub sessions : o.sessions.Table
