-- ===== src/Services/Atomicity/Agents.antt =====
-- The services of `Agents` (src/mob/services/agents.py) that raise, and the saved database.
use mob.Prelude.{String, Option, none, some, List}
use mob.Orm.{Orm}
use mob.Transaction.Atomic.{Unsaved, Atomic, Atomic-of_Unsaved, unsaved_rules, atomic_rules}
use mob.Services.Json.{Json}
use mob.Services.Agents.{
  AgentData, link_skill, replace_skills, list_agents, create_agent, get_agent, update_agent,
  delete_agent,
}
use mob.Services.Atomicity.Cascades.{Unsaved-delete_agent_row}

module _ {o : Orm} where
  Unsaved-link_skill : (a s : String) → Unsaved {o = o} (link_skill a s)
  unfolding link_skill
  Unsaved-link_skill a s = search unsaved_rules depth 8

  Unsaved-replace_skills :
      (a : String) (ids : Option (List String)) → Unsaved {o = o} (replace_skills a ids)
  unfolding replace_skills
  Unsaved-replace_skills a none = search unsaved_rules
  Unsaved-replace_skills a (some ids) = search (unsaved_rules, Unsaved-link_skill) depth 12

  pub Atomic-list_agents : (x0 : Option String) → Atomic {o = o} (list_agents x0)
  unfolding list_agents
  Atomic-list_agents x0 = Atomic-of_Unsaved (search unsaved_rules depth 12)

  pub Atomic-create_agent :
      (x0 : Json) (x1 : String) (x2 : String) (x3 : String) (x4 : String) (x5 : AgentData)
      → Atomic {o = o} (create_agent x0 x1 x2 x3 x4 x5)
  unfolding create_agent
  Atomic-create_agent x0 x1 x2 x3 x4 x5 = search (atomic_rules, Unsaved-link_skill) depth 12

  pub Atomic-get_agent : (x0 : String) → Atomic {o = o} (get_agent x0)
  unfolding get_agent
  Atomic-get_agent x0 = Atomic-of_Unsaved (search unsaved_rules depth 12)

  pub Atomic-update_agent :
      (x0 : Json) (x1 : String) (x2 : Option String) (x3 : Option String) (x4 : AgentData)
      → Atomic {o = o} (update_agent x0 x1 x2 x3 x4)
  unfolding update_agent
  Atomic-update_agent x0 x1 x2 x3 x4 = search (atomic_rules, Unsaved-replace_skills) depth 12

  pub Atomic-delete_agent : (x0 : String) → Atomic {o = o} (delete_agent x0)
  unfolding delete_agent
  Atomic-delete_agent x0 = search (atomic_rules, Unsaved-delete_agent_row) depth 12
