-- ===== src/Services/Atomicity/Tasks.antt =====
-- The services of `Tasks` (src/mob/services/tasks.py) that raise, and the saved database.
use mob.Prelude.{String, Option}
use mob.Orm.{Orm}
use mob.Transaction.Atomic.{Atomic, Atomic-of_Unsaved, unsaved_rules, atomic_rules}
use mob.Services.Tasks.{list_tasks, create_task, get_task}

module _ {o : Orm} where
  pub Atomic-list_tasks : (x0 : Option String) → Atomic {o = o} (list_tasks x0)
  unfolding list_tasks
  Atomic-list_tasks x0 = Atomic-of_Unsaved (search unsaved_rules depth 12)

  pub Atomic-create_task :
      (x0 : String) (x1 : String) (x2 : String) (x3 : Option String)
      → Atomic {o = o} (create_task x0 x1 x2 x3)
  unfolding create_task
  Atomic-create_task x0 x1 x2 x3 = search atomic_rules depth 12

  pub Atomic-get_task : (x0 : String) → Atomic {o = o} (get_task x0)
  unfolding get_task
  Atomic-get_task x0 = Atomic-of_Unsaved (search unsaved_rules depth 12)
