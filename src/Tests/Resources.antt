-- ===== src/Tests/Resources.antt =====
-- Creating an organization and deleting an agent on the database of the examples.
use mob.Prelude.{◌≡◌, ◌≢◌, ◌↔◌, refl, [], ◌∷◌, none, some}
use mob.Models.{AgentSkill, Organization, Domain}
use mob.Orm.{Db}
use mob.Orm.Memory.{get, live, without, is_refused, update, add, add_to}
use mob.Transaction.{
  run, find, require, pure, select, scalar_one_or_none, refuse_if, insert, flush, commit, for_each,
  remove, ◌>>=◌,
}
use mob.Services.Agents.{delete_agent}
use mob.Services.Cascade.{
  delete_agent_row, delete_domain_row, delete_group_row, delete_organization_row,
}
use mob.Services.Cascade.Orphans.{Gone, delete_organization_erases}
use mob.Services.Cascade.Erasure.{delete_agent_erases}
use mob.Services.Organizations.{create_organization, new_organization, delete_organization}
use mob.Services.Organizations.Founding.{Founded, create_organization-Founded}
use mob.Tests.Database.{in_memory, stored, old_session, robot}

create_organization-Founded_example :
    Founded {o = in_memory} "o1" "d1" "g1" "acme" "Acme"
      (run (create_organization "o1" "d1" "g1" "acme" "Acme") stored).1
unfolding run create_organization select scalar_one_or_none refuse_if insert flush commit pure ◌>>=◌
    live get add add_to update is_refused without
create_organization-Founded_example =
    create_organization-Founded stored "o1" "d1" "g1" "acme" "Acme"
      (new_organization "o1" "acme" "Acme") refl

abbrev remaining : Db in_memory
remaining = (run (delete_agent "a1") stored).1

abbrev link : AgentSkill
link = record { agent_id = "a1"; skill_id = "k1" }

delete_agent_erases_example :
    (in_memory.agents.get remaining.agents "a1" ≡ none)
    × ((in_memory.sessions.get remaining.sessions "s1" ≡ some old_session) ↔ (
        (in_memory.sessions.get stored.sessions "s1" ≡ some old_session)
        × (old_session.agent_id ≢ "a1")))
    × ((in_memory.agent_skills.get remaining.agent_skills ("a1", "k1") ≡ some link) ↔ (
        (in_memory.agent_skills.get stored.agent_skills ("a1", "k1") ≡ some link)
        × (link.agent_id ≢ "a1")))
unfolding run delete_agent find require get delete_agent_row select live without for_each remove
    commit pure ◌>>=◌
delete_agent_erases_example =
    delete_agent_erases stored "a1" tt "s1" old_session ("a1", "k1") link refl

abbrev acme : Organization
acme = record { id = "o1"; identifier = "acme"; name = "Acme" }

abbrev home : Domain
home = record { id = "d1"; identifier = "acme-default"; name = "Default"; organization_id = "o1" }

abbrev owned : Db in_memory
owned = record stored { organizations = acme ∷ []; domains = home ∷ [] }

delete_organization_erases_example :
    Gone home robot old_session "s1" (run (delete_organization {o = in_memory} "o1") owned).1
unfolding run delete_organization find require get delete_organization_row delete_domain_row
    delete_agent_row delete_group_row select live without for_each remove commit pure ◌>>=◌
delete_organization_erases_example =
    delete_organization_erases owned "o1" tt home robot old_session "s1" refl refl refl refl refl
      refl
