-- ===== src/Services/Atomicity/Skills.antt =====
-- The services of `Skills` (src/mob/services/skills.py) that raise, and the saved database.
use mob.Prelude.{String, Option}
use mob.Orm.{Orm}
use mob.Transaction.Atomic.{Atomic, Atomic-of_Unsaved, unsaved_rules, atomic_rules}
use mob.Services.Json.{Json}
use mob.Services.Skills.{
  SkillData, list_skills, create_skill, get_skill, update_skill, delete_skill,
}

module _ {o : Orm} where
  pub Atomic-list_skills : Atomic {o = o} list_skills
  unfolding list_skills
  Atomic-list_skills = Atomic-of_Unsaved (search unsaved_rules depth 12)

  pub Atomic-create_skill :
      (x0 : Json) (x1 : String) (x2 : String) (x3 : String) (x4 : SkillData)
      → Atomic {o = o} (create_skill x0 x1 x2 x3 x4)
  unfolding create_skill
  Atomic-create_skill x0 x1 x2 x3 x4 = search atomic_rules depth 12

  pub Atomic-get_skill : (x0 : String) → Atomic {o = o} (get_skill x0)
  unfolding get_skill
  Atomic-get_skill x0 = Atomic-of_Unsaved (search unsaved_rules depth 12)

  pub Atomic-update_skill :
      (x0 : Json) (x1 : String) (x2 : Option String) (x3 : Option String) (x4 : SkillData)
      → Atomic {o = o} (update_skill x0 x1 x2 x3 x4)
  unfolding update_skill
  Atomic-update_skill x0 x1 x2 x3 x4 = search atomic_rules depth 12

  pub Atomic-delete_skill : (x0 : String) → Atomic {o = o} (delete_skill x0)
  unfolding delete_skill
  Atomic-delete_skill x0 = search atomic_rules depth 12
