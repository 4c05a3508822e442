-- ===== src/Webhook/Telegram/Calls.antt =====
-- Which calls an update of Telegram leads to.
use mob.Prelude.{
  not, ◌&&◌, String, ◌≡◌, ◌⊎◌, inl, inr, Bool, true, false, Option, none, some, List, [], ◌∷◌,
  arith, Bool-cases, is_truthy, if◌then◌else◌,
}
use mob.Json.{Json, is_true, str, get}
use mob.Webhook.Calls.{Call, forward, reply, Reply, accepted, refused, Agent}
use mob.Webhook.Telegram.{
  Update, read_chat, read_message, send_reply, deliver, on_update, on_text, on_message, same_text,
  telegram_webhook,
}

-- No call, one message to the agent, or one message and one reply to the chat behind it.
pub data IsExchange : List Call → Type 0 where
  silent : IsExchange []
  unanswered : (text : Json) → IsExchange (forward text ∷ [])
  answered :
      (text chat : Json) (response : String)
      → IsExchange (forward text ∷ (reply chat response ∷ []))

send_reply-IsExchange :
    (bot : Option String) (text chat : Json) (response : String)
    → IsExchange (forward text ∷ send_reply bot chat response)
unfolding send_reply
send_reply-IsExchange bot text chat response = by_test (is_truthy bot && is_true chat)
  where
    by_test : (b : Bool) → IsExchange (forward text ∷ (if b then reply chat response ∷ [] else []))
    by_test true = answered text chat response
    by_test false = unanswered text

deliver-IsExchange :
    (agent : Agent) (bot : Option String) (update : Update)
    → IsExchange (deliver agent bot update).1
unfolding deliver
deliver-IsExchange agent bot update = by_answer (agent [] update.text)
  where
    by_answer :
        (r : Option String)
        → IsExchange
            (elim r as (λ _. Reply × List Call) [
              | none ↦ (accepted, forward update.text ∷ [])
              | some response ↦
                  (accepted, forward update.text ∷ send_reply bot update.chat_id response)
            ]).1
    by_answer none = unanswered update.text
    by_answer (some response) = send_reply-IsExchange bot update.text update.chat_id response

on_update-IsExchange :
    (agent : Agent) (bot : Option String) (update : Option Update)
    → IsExchange (on_update agent bot update).1
unfolding on_update
on_update-IsExchange agent bot none = silent
on_update-IsExchange agent bot (some update) = deliver-IsExchange agent bot update

if-IsExchange :
    (b : Bool) (x y : Reply × List Call)
    → IsExchange x.1
    → IsExchange y.1
    → IsExchange (if b then x else y).1
if-IsExchange true x y h k = h
if-IsExchange false x y h k = k

on_message-IsExchange :
    (agent : Agent) (bot : Option String) (message : Option Json)
    → IsExchange (on_message agent bot message).1
unfolding on_message on_text
on_message-IsExchange agent bot none = silent
on_message-IsExchange agent bot (some message) = by_text (get "text" (str "") message)
  where
    by_text : (text : Option Json) → IsExchange (on_text agent bot message text).1
    by_text none = silent
    by_text (some text) =
        if-IsExchange (is_true text) (on_update agent bot (read_chat message text)) (accepted, [])
          (on_update-IsExchange agent bot (read_chat message text)) silent

-- An update of Telegram leads to no call, one message to the agent, or one message and a reply
-- behind it, and to no call if a secret is configured and the update bears another.
pub telegram_webhook-IsExchange :
    (agent : Agent) (expected bot secret : Option String) (body : Json)
    → IsExchange (telegram_webhook agent expected bot secret body).1
      × ((is_truthy expected ≡ false)
          ⊎ (same_text secret expected ≡ true)
          ⊎ ((telegram_webhook agent expected bot secret body).1 ≡ []))
unfolding telegram_webhook
telegram_webhook-IsExchange agent expected bot secret body = (
  if-IsExchange (is_truthy expected && not (same_text secret expected))
      (refused "Invalid secret token", []) (on_message agent bot (read_message body)) silent
      (on_message-IsExchange agent bot (read_message body)),
  elim (Bool-cases (is_truthy expected)) [
    | inr unset ↦ inl unset
    | inl configured ↦ elim (Bool-cases (same_text secret expected)) [
      | inl same ↦ inr (inl same)
      | inr other ↦ inr (inr (ground arith))
    ]
  ],
)
