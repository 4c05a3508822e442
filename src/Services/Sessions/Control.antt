-- ===== src/Services/Sessions/Control.antt =====
-- src/mob/services/sessions.py, `stop_session` and `update_session_state`.
use mob.Prelude.{String, ◌<>◌, not, some}
use mob.Models.{SessionState, failed, value, Session}
use mob.Orm.{Orm}
use mob.Transaction.{
  Error, service_error, Service, sessions, pure, require, refuse_if, commit, find, assign, ◌>>=◌,
  ◌>>◌,
}
use mob.Services.Sessions.States.{is_terminal, is_allowed, session_state, formatted}
use mob.Services.Sessions.Live.{not_found}

abbrev pub already_terminal : SessionState → Error
already_terminal state =
    service_error ("Session is already in terminal state: " <> formatted state) 400

abbrev pub stopped : Session → Session
stopped sess = record sess { state = failed; error_message = some "Stopped by user" }

abbrev pub moved : SessionState → Session → Session
moved state sess = record sess { state = state }

abbrev pub invalid_state : String → Error
invalid_state state = service_error ("Invalid state: " <> state) 400

abbrev pub invalid_transition : (old new : SessionState) → Error
invalid_transition old new =
    service_error ("Invalid state transition: " <> (value old <> (" -> " <> value new))) 409

module _ {o : Orm} where
  -- The deletion of the custom resource has no effect on the outcome: its exceptions are logged.
  unfoldable pub stop_session : String → Service o Session
  stop_session session_id = do
    found ← find sessions session_id
    sess ← require not_found found
    refuse_if (is_terminal sess.state) (already_terminal sess.state)
    assign sessions (stopped sess)
    commit
    pure (stopped sess)

  unfoldable pub update_session_state : (session_id state : String) → Service o Session
  update_session_state session_id state = do
    found ← find sessions session_id
    sess ← require not_found found
    new_state ← require (invalid_state state) (session_state state)
    refuse_if (not (is_allowed sess.state new_state)) (invalid_transition sess.state new_state)
    assign sessions (moved new_state sess)
    commit
    pure (moved new_state sess)
