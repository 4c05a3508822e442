-- ===== src/Agent/Entrypoint.antt =====
-- src/mob/agent/entrypoint.py: the state of the pod and the `/message` handler. A handler runs from
-- one `await` to the next; each such piece is one event, and a schedule is a list of events of any
-- number of handlers. The LLM is not part of the repository: what it answers comes with the event.
-- The patch of the pod's annotation ends the piece that makes it; its failure is only logged.
use Prim.Native.String.{count}
use mob.Prelude.{
  ℕ, String, ◌<>◌, ◌==◌, Bool, true, false, Option, none, some, List, [], ◌∷◌, nat_eq, ltb,
  is_empty, if◌then◌else◌,
}

-- `_state`
pub data AgentState : Type 0 where
  starting idle busy finished : AgentState

pub record Answer : Type 0 where
  pub status_code : ℕ
  pub text : String
  pub state : Option AgentState

-- Where a handler stands: not called, waiting for `_lock`, patching the annotation to busy inside
-- the lock, inside the LLM call (which was given a history), patching the annotation to idle with a
-- status and a text to answer, answered, or ended by a cancellation.
pub data Phase : Type 0 where
  absent waiting patching : Phase
  running : (given : Option (List String)) → Phase
  settling : (status_code : ℕ) (text : String) → Phase
  answered : Answer → Phase
  cancelled : Phase

pub record Pod : Type 0 where
  pub state : AgentState
  pub auth_token : String
  pub history : Option (List String)
  pub lock_free : Bool
  pub phase : ℕ → Phase

abbrev pub set_phase : ℕ → Phase → Pod → Pod
set_phase i ph p = record p { phase = λ j. if nat_eq i j then ph else p.phase j }

pub data Event : Type 0 where
  shutdown : Event
  arrive : (i : ℕ) (message : String) (authorization : Option String) → Event
  enter : (i : ℕ) → Event
  patched : (i : ℕ) → Event
  complete : (i : ℕ) (all_messages : List String) (output : String) → Event
  time_out : (i : ℕ) → Event
  break : (i : ℕ) → Event
  cancel : (i : ℕ) → Event
  reply : (i : ℕ) → Event

-- `authorization == f"Bearer {token}"`, false without the header
abbrev pub bears : (token : String) → Option String → Bool
bears token none = false
bears token (some given) = given == "Bearer " <> token

-- `_verify_auth`
unfoldable pub is_authorized : (token : String) → Option String → Bool
is_authorized token authorization = if is_empty token then true else bears token authorization

abbrev pub max_length : ℕ
max_length = 32000

-- The validation of the body, then the token, then the lock.
unfoldable pub on_arrive : ℕ → String → Option String → Phase → Pod → Pod
on_arrive i message authorization absent p =
    if ltb max_length (count message)
    then set_phase i (answered (record { status_code = 422; text = ""; state = none })) p
    else if is_authorized p.auth_token authorization
    then set_phase i waiting p
    else set_phase i (answered (record { status_code = 401; text = "Unauthorized"; state = none }))
        p
on_arrive i message authorization _ p = p

abbrev pub shown : AgentState → String
shown starting = "starting"
shown idle = "idle"
shown busy = "busy"
shown finished = "finished"

abbrev pub refusal : AgentState → Answer
refusal busy = record {
  status_code = 409;
  text = "Agent is busy processing another message";
  state = some busy;
}
refusal state = record {
  status_code = 409;
  text = "Agent is not ready (state: " <> (shown state <> ")");
  state = some state;
}

-- The body of `async with _lock`, up to the patch.
unfoldable pub admit : ℕ → AgentState → Pod → Pod
admit i idle p = set_phase i patching (record p { state = busy; lock_free = false })
admit i state p = set_phase i (answered (refusal state)) p

unfoldable pub on_enter : ℕ → Phase → Pod → Pod
on_enter i waiting p = if p.lock_free then admit i p.state p else p
on_enter i _ p = p

-- The lock is released and the LLM is called with the history.
unfoldable pub on_patched : ℕ → Phase → Pod → Pod
on_patched i patching p = set_phase i (running p.history) (record p { lock_free = true })
on_patched i _ p = p

unfoldable pub on_complete : ℕ → List String → String → Phase → Pod → Pod
on_complete i all_messages output (running given) p =
    set_phase i (settling 200 output) (record p { state = idle; history = some all_messages })
on_complete i all_messages output _ p = p

-- The two `except` branches.
unfoldable pub on_failure : ℕ → (status_code : ℕ) → String → Phase → Pod → Pod
on_failure i status_code text (running given) p =
    set_phase i (settling status_code text) (record p { state = idle })
on_failure i status_code text _ p = p

-- A CancelledError is no `Exception`: no branch sets the state. Inside `async with` it releases the
-- lock.
unfoldable pub on_cancel : ℕ → Phase → Pod → Pod
on_cancel i waiting p = set_phase i cancelled p
on_cancel i patching p = set_phase i cancelled (record p { lock_free = true })
on_cancel i (running given) p = set_phase i cancelled p
on_cancel i (settling status_code text) p = set_phase i cancelled p
on_cancel i _ p = p

-- The answer shows the state as it is after the patch.
unfoldable pub on_reply : ℕ → Phase → Pod → Pod
on_reply i (settling status_code text) p =
    set_phase i (answered (record { status_code = status_code; text = text; state = some p.state }))
      p
on_reply i _ p = p

-- The two halves of `lifespan`. The server runs the first once, before it hands on a request.
unfoldable pub on_startup : Pod → Pod
on_startup p = record p { state = idle }

unfoldable pub on_shutdown : Pod → Pod
on_shutdown p = record p { state = finished }

unfoldable pub step : Event → Pod → Pod
step shutdown p = on_shutdown p
step (arrive i message authorization) p = on_arrive i message authorization (p.phase i) p
step (enter i) p = on_enter i (p.phase i) p
step (patched i) p = on_patched i (p.phase i) p
step (complete i all_messages output) p = on_complete i all_messages output (p.phase i) p
step (time_out i) p = on_failure i 504 "LLM call timed out" (p.phase i) p
step (break i) p = on_failure i 502 "Internal error processing message" (p.phase i) p
step (cancel i) p = on_cancel i (p.phase i) p
step (reply i) p = on_reply i (p.phase i) p

unfoldable pub steps : List Event → Pod → Pod
steps [] p = p
steps (e ∷ es) p = steps es (step e p)

abbrev pub fresh : String → Pod
fresh token = record {
  state = starting;
  auth_token = token;
  history = none;
  lock_free = true;
  phase = λ i. absent;
}
