-- ===== src/Webhook/Whatsapp.antt =====
-- src/mob/webhook/gateway.py, `whatsapp_verify` and `whatsapp_webhook`. The HMAC and the JSON parser
-- are parameters.
pub mod Messages
use mob.Prelude.{
  String, ◌<>◌, ◌==◌, Bool, true, false, not, ◌&&◌, Option, none, some, List, [], ◌∷◌, ◌++◌,
  is_truthy, or_else, if◌then◌else◌,
}
use mob.Json.{Json, null, str, arr, obj, nil, end, is_true, get, iterate, ◌>>=◌}
use mob.Webhook.Calls.{Call, forward, reply, Reply, accepted, refused, crashed, Agent}
use mob.Webhook.Telegram.{same_text}

-- `whatsapp_verify`: the challenge, or 403
unfoldable pub whatsapp_verify :
    (verify_token : String) (mode token challenge : Option String) → Option (Option String)
whatsapp_verify verify_token mode token challenge =
    if same_text mode (some "subscribe") && same_text token (some verify_token)
    then some challenge
    else none

pub record Settings : Type 0 where
  pub app_secret : Option String
  pub phone_number_id : Option String
  pub access_token : Option String

-- The type of a message as a text; anything else is not "text".
abbrev is_text : Json → Bool
is_text (str s) = s == "text"
is_text _ = false

-- The part of a message that is read once its type is known.
pub record Message : Type 0 where
  pub text : Json
  pub sender : Json

unfoldable pub read_text : Json → Option Message
read_text msg = do
  inner ← get "text" (obj end) msg
  text ← get "body" (str "") inner
  sender ← get "from" (str "") msg
  some (record { text = text; sender = sender })

-- The calls so far, and whether an exception ended the request.
pub data Progress : Type 0 where
  going : List Call → Progress
  stopped : List Call → Progress

unfoldable pub send_reply : Settings → Json → String → List Call
send_reply settings sender response =
    if is_truthy settings.phone_number_id && is_truthy settings.access_token
    then reply sender response ∷ []
    else []

-- Forwarding one message; an HTTPException goes on with the next message.
unfoldable pub deliver : Agent → Settings → Message → List Call → List Call
unfolding send_reply
deliver agent settings m calls = elim (agent calls m.text) [
  | none ↦ calls ++ forward m.text ∷ []
  | some response ↦ calls ++ forward m.text ∷ send_reply settings m.sender response
]

unfoldable pub on_read : Agent → Settings → Option Message → List Call → Progress
on_read agent settings none calls = stopped calls
on_read agent settings (some m) calls =
    if is_true m.text then going (deliver agent settings m calls) else going calls

unfoldable pub on_type : Agent → Settings → Json → Option Json → List Call → Progress
on_type agent settings msg none calls = stopped calls
on_type agent settings msg (some kind) calls =
    if is_text kind then on_read agent settings (read_text msg) calls else going calls

-- The body of the loop over messages.
unfoldable pub on_msg : Agent → Settings → Json → List Call → Progress
unfolding on_type on_read read_text
on_msg agent settings msg calls = on_type agent settings msg (get "type" null msg) calls

-- `for x in xs: body`, ended by the first exception
unfoldable pub each : (Json → List Call → Progress) → List Json → List Call → Progress
each body [] calls = going calls
each body (x ∷ xs) calls = elim (body x calls) [
  | going more ↦ each body xs more
  | stopped more ↦ stopped more
]

-- The loop over the items of a value that may not be there or not be iterable.
unfoldable pub each_of : (Json → List Call → Progress) → Option (List Json) → List Call → Progress
unfolding each
each_of body none calls = stopped calls
each_of body (some xs) calls = each body xs calls

-- `value.get(key, [])`, as the items of a `for`
unfoldable pub items_at : String → Json → Option (List Json)
items_at key value = do xs ← get key (arr nil) value; iterate xs

unfoldable pub on_change : Agent → Settings → Json → List Call → Progress
on_change agent settings change calls =
    each_of (on_msg agent settings)
      (get "value" (obj end) change >>= λ value. items_at "messages" value) calls

unfoldable pub on_entry : Agent → Settings → Json → List Call → Progress
on_entry agent settings entry calls =
    each_of (on_change agent settings) (items_at "changes" entry) calls

-- The response of the handler.
abbrev pub finish : Progress → Reply × List Call
finish (going calls) = (accepted, calls)
finish (stopped calls) = (crashed, calls)

unfoldable pub process : Agent → Settings → Option Json → Reply × List Call
process agent settings none = (crashed, [])
process agent settings (some body) =
    finish (each_of (on_entry agent settings) (items_at "entry" body) [])

-- The error of the signature check, if there is one.
unfoldable pub signature_error :
    (hmac_sha256 : String → String → String)
    → Settings
    → Option String
    → (body : String) → Option String
signature_error hmac_sha256 settings signature body =
    if not (is_truthy settings.app_secret)
    then none
    else if not (is_truthy signature)
    then some "Missing signature"
    else if "sha256=" <> hmac_sha256 (or_else settings.app_secret "") body == or_else signature ""
    then none
    else some "Invalid signature"

unfoldable pub whatsapp_webhook :
    (hmac_sha256 : String → String → String) (loads : String → Option Json)
    → Agent
    → Settings
    → Option String
    → (body : String) → Reply × List Call
whatsapp_webhook hmac_sha256 loads agent settings signature body =
    elim (signature_error hmac_sha256 settings signature body) [
      | some detail ↦ (refused detail, [])
      | none ↦ process agent settings (loads body)
    ]
