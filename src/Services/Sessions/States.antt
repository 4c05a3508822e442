-- ===== src/Services/Sessions/States.antt =====
-- src/mob/services/sessions.py, the tables over the states of a session.
pub mod Codec
use mob.Prelude.{
  String, ◌==◌, Bool, true, false, ◌||◌, Option, none, some, List, [], ◌∷◌, any, if◌then◌else◌,
}
use mob.Models.{SessionState, pending, starting, idle, busy, finished, failed, value}

-- VALID_TRANSITIONS
abbrev pub valid_transitions : SessionState → List SessionState
valid_transitions pending = starting ∷ failed ∷ []
valid_transitions starting = idle ∷ failed ∷ []
valid_transitions idle = busy ∷ finished ∷ failed ∷ []
valid_transitions busy = idle ∷ finished ∷ failed ∷ []
valid_transitions finished = []
valid_transitions failed = []

-- CR_STATE_TO_DB_STATE.get
unfoldable pub cr_state_to_db_state : String → Option SessionState
cr_state_to_db_state s =
    if s == "Pending"
    then some pending
    else if s == "Starting"
    then some starting
    else if s == "Idle"
    then some idle
    else if s == "Busy"
    then some busy
    else if s == "Finished"
    then some finished
    else if s == "Failed"
    then some failed
    else none

-- `state in TERMINAL_STATES`
abbrev pub is_terminal : SessionState → Bool
is_terminal finished = true
is_terminal failed = true
is_terminal _ = false

-- `SessionState(s)`; `none` is the ValueError.
unfoldable pub session_state : String → Option SessionState
session_state s =
    if s == "pending"
    then some pending
    else if s == "starting"
    then some starting
    else if s == "idle"
    then some idle
    else if s == "busy"
    then some busy
    else if s == "finished"
    then some finished
    else if s == "failed"
    then some failed
    else none

abbrev pub same_state : SessionState → SessionState → Bool
same_state s t = value s == value t

-- `new_state in allowed`
abbrev pub is_allowed : SessionState → SessionState → Bool
is_allowed old new = any (same_state new) (valid_transitions old)

-- The member of the enum as an f-string shows it.
abbrev pub formatted : SessionState → String
formatted pending = "SessionState.PENDING"
formatted starting = "SessionState.STARTING"
formatted idle = "SessionState.IDLE"
formatted busy = "SessionState.BUSY"
formatted finished = "SessionState.FINISHED"
formatted failed = "SessionState.FAILED"
