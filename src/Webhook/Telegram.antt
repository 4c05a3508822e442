-- ===== src/Webhook/Telegram.antt =====
-- src/mob/webhook/gateway.py, `telegram_webhook`.
pub mod Calls
use mob.Prelude.{
  String, ◌==◌, Bool, true, false, not, ◌&&◌, Option, none, some, List, [], ◌∷◌, is_truthy,
  if◌then◌else◌,
}
use mob.Json.{Json, null, str, obj, end, is_true, get, or_json, ◌>>=◌}
use mob.Webhook.Calls.{Call, forward, reply, Reply, accepted, refused, crashed, Agent}

abbrev pub same_text : Option String → Option String → Bool
same_text (some s) (some t) = s == t
same_text none none = true
same_text _ _ = false

-- The message, its text and its chat. `from` is read for its name, which is not used.
pub record Update : Type 0 where
  pub text : Json
  pub chat_id : Json

-- A text that is empty ends the handler before the chat is read.
unfoldable pub read_chat : Json → Json → Option Update
read_chat message text = do
  chat ← get "chat" (obj end) message
  chat_id ← get "id" null chat
  sender ← get "from" (obj end) message
  name ← get "first_name" (str "User") sender
  some (record { text = text; chat_id = chat_id })

abbrev first_message : Json → Json → Json
first_message message edited = or_json message (or_json edited (obj end))

-- `body.get("message") or body.get("edited_message") or {}`
unfoldable pub read_message : Json → Option Json
read_message body = do
  message ← get "message" null body
  edited ← get "edited_message" null body
  some (first_message message edited)

unfoldable pub send_reply : Option String → Json → String → List Call
send_reply bot_token chat_id response =
    if is_truthy bot_token && is_true chat_id then reply chat_id response ∷ [] else []

-- Forwarding; an HTTPException is answered like a success, so that Telegram does not retry.
unfoldable pub deliver : Agent → Option String → Update → Reply × List Call
unfolding send_reply
deliver agent bot_token update = elim (agent [] update.text) [
  | none ↦ (accepted, forward update.text ∷ [])
  | some response ↦ (accepted, forward update.text ∷ send_reply bot_token update.chat_id response)
]

unfoldable pub on_update : Agent → Option String → Option Update → Reply × List Call
unfolding deliver
on_update agent bot_token none = (crashed, [])
on_update agent bot_token (some update) = deliver agent bot_token update

unfoldable pub on_text : Agent → Option String → Json → Option Json → Reply × List Call
unfolding on_update read_chat
on_text agent bot_token message none = (crashed, [])
on_text agent bot_token message (some text) =
    if is_true text then on_update agent bot_token (read_chat message text) else (accepted, [])

unfoldable pub on_message : Agent → Option String → Option Json → Reply × List Call
unfolding on_text
on_message agent bot_token none = (crashed, [])
on_message agent bot_token (some message) =
    on_text agent bot_token message (get "text" (str "") message)

unfoldable pub telegram_webhook :
    Agent → (expected_secret bot_token secret : Option String) → (body : Json) → Reply × List Call
unfolding on_message read_message
telegram_webhook agent expected_secret bot_token secret body =
    if is_truthy expected_secret && not (same_text secret expected_secret)
    then (refused "Invalid secret token", [])
    else on_message agent bot_token (read_message body)
