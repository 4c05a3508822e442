-- ===== src/Webhook/Calls.antt =====
-- The calls and the answers of src/mob/webhook/gateway.py, over the JSON values that its handlers read.
use mob.Prelude.{String, Option, List}
use mob.Json.{Json}

-- What a request does, in order: a message goes to the agent, a reply to the platform.
pub data Call : Type 0 where
  forward : Json → Call
  reply : (to : Json) (text : String) → Call

pub data Reply : Type 0 where
  accepted : Reply
  refused : (detail : String) → Reply
  crashed : Reply

-- The agent's answer to a message after the calls so far; `none` is an HTTPException of
-- `_forward_to_agent`.
abbrev pub Agent : Type 0
Agent = List Call → Json → Option String
