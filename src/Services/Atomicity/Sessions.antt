-- ===== src/Services/Atomicity/Sessions.antt =====
-- The services of `Sessions` (src/mob/services/sessions.py) that raise, and the saved database. `create_session` saves the row
-- before it meets Kubernetes and is treated in `Sessions.Creation`.
use mob.Prelude.{String, Option}
use mob.Orm.{Orm}
use mob.Transaction.Atomic.{Atomic, Unsaved, Atomic-of_Unsaved, unsaved_rules, atomic_rules}
use mob.Services.Sessions.Live.{
  Cluster, Filter, everything, only, invalid, state_filter, list_filtered, list_sessions,
  get_session,
}
use mob.Services.Sessions.Control.{stop_session, update_session_state}

module _ {o : Orm} where
  Unsaved-list_filtered :
      (k8s : Cluster) (f : Filter) (agent_id : Option String)
      → Unsaved {o = o} (list_filtered k8s f agent_id)
  unfolding list_filtered
  Unsaved-list_filtered k8s everything agent_id = search unsaved_rules
  Unsaved-list_filtered k8s (only s) agent_id = search unsaved_rules
  Unsaved-list_filtered k8s (invalid s) agent_id = search unsaved_rules

  pub Atomic-list_sessions :
      (k8s : Cluster) (agent_id state : Option String)
      → Atomic {o = o} (list_sessions k8s agent_id state)
  unfolding list_sessions
  Atomic-list_sessions k8s agent_id state =
      Atomic-of_Unsaved (Unsaved-list_filtered k8s (state_filter state) agent_id)

  pub Atomic-get_session : (k8s : Cluster) (id : String) → Atomic {o = o} (get_session k8s id)
  unfolding get_session
  Atomic-get_session k8s id = Atomic-of_Unsaved (search unsaved_rules depth 12)

  pub Atomic-stop_session : (id : String) → Atomic {o = o} (stop_session id)
  unfolding stop_session
  Atomic-stop_session id = search atomic_rules depth 12

  pub Atomic-update_session_state :
      (id state : String) → Atomic {o = o} (update_session_state id state)
  unfolding update_session_state
  Atomic-update_session_state id state = search atomic_rules depth 12
