-- ===== src/Services/Cascade.antt =====
-- `session.delete` with the cascades that the models declare (`cascade="all, delete-orphan"`):
-- organization to domains and groups, domain to agents, agent to sessions and skill links, group
-- and user to memberships. The `ondelete` clauses of the foreign keys are the database's, are not
-- enforced by the default SQLite database, and are not modelled.
pub mod Purge
pub mod Erasure
pub mod Effects
pub mod Orphans
use mob.Prelude.{String, ◌==◌}
use mob.Orm.{Orm, link_key}
use mob.Transaction.{
  Service, organizations, domains, users, groups, group_members, agents, agent_skills, sessions,
  select, remove, for_each, ◌>>=◌, ◌>>◌,
}

module _ {o : Orm} where
  unfoldable pub delete_agent_row : String → Service o (Unit {0})
  delete_agent_row id = do
    owned ← select sessions (λ r. r.agent_id == id)
    for_each owned (λ r. remove sessions r.id)
    links ← select agent_skills (λ r. r.agent_id == id)
    for_each links (λ r. remove agent_skills (link_key r))
    remove agents id

  unfoldable pub delete_domain_row : String → Service o (Unit {0})
  delete_domain_row id = do
    owned ← select agents (λ r. r.domain_id == id)
    for_each owned (λ r. delete_agent_row r.id)
    remove domains id

  unfoldable pub delete_group_row : String → Service o (Unit {0})
  delete_group_row id = do
    members ← select group_members (λ r. r.group_id == id)
    for_each members (λ r. remove group_members r.id)
    remove groups id

  unfoldable pub delete_user_row : String → Service o (Unit {0})
  delete_user_row id = do
    memberships ← select group_members (λ r. r.user_id == id)
    for_each memberships (λ r. remove group_members r.id)
    remove users id

  unfoldable pub delete_organization_row : String → Service o (Unit {0})
  delete_organization_row id = do
    owned ← select domains (λ r. r.organization_id == id)
    for_each owned (λ r. delete_domain_row r.id)
    owned_groups ← select groups (λ r. r.organization_id == id)
    for_each owned_groups (λ r. delete_group_row r.id)
    remove organizations id
