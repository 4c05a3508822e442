-- ===== src/Services/Tasks.antt =====
-- src/mob/services/tasks.py
use mob.Prelude.{String, Option, List}
use mob.Models.{Task}
use mob.Orm.{Orm}
use mob.Transaction.{
  Error, service_error, Service, tasks, pure, require, commit, find, select, insert, ◌>>=◌, ◌>>◌,
}
use mob.Services.Domains.{scoped}

abbrev pub not_found : Error
not_found = service_error "Task not found" 404

abbrev pub new_task : (id instruction agent_id : String) → Option String → Task
new_task id instruction agent_id definition_of_done = record {
  id = id;
  instruction = instruction;
  definition_of_done = definition_of_done;
  agent_id = agent_id;
}

module _ {o : Orm} where
  unfoldable pub list_tasks : Option String → Service o (List Task)
  list_tasks agent_id = select tasks (scoped agent_id (λ r. r.agent_id))

  unfoldable pub create_task : (id instruction agent_id : String) → Option String → Service o Task
  create_task id instruction agent_id definition_of_done = do
    insert tasks (new_task id instruction agent_id definition_of_done)
    commit
    pure (new_task id instruction agent_id definition_of_done)

  unfoldable pub get_task : String → Service o Task
  get_task task_id = do found ← find tasks task_id; require not_found found
