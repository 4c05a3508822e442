-- ===== src/Webhook/Whatsapp/Messages.antt =====
-- Which messages of a WhatsApp notification reach the agent.
use mob.Prelude.{String, ◌==◌, ◌≡◌, false, some, List, [], ◌∷◌, ◌++◌, is_empty, if◌then◌else◌}
use mob.Json.{Json, null, str, arr, obj, Items, nil, cons, end, get}
use mob.Webhook.Calls.{Call, forward, reply}
use mob.Webhook.Whatsapp.{Progress, going}

-- A message of a notification: a text, or something of another type.
pub data Sent : Type 0 where
  text : (sender content : String) → Sent
  media : (kind : String) → (kind == "text") ≡ false → Sent

-- The notification: entries, changes, messages.
abbrev pub Notification : Type 0
Notification = List (List (List Sent))

-- The JSON of a message, whatever else it holds.
abbrev pub ShowsMsg : Json → Sent → Type 0
ShowsMsg j (text sender content) =
    (get "type" null j ≡ some (str "text"))
    × (get "from" (str "") j ≡ some (str sender))
    × ((inner : Json) × (get "text" (obj end) j ≡ some inner)
        × (get "body" (str "") inner ≡ some (str content)))
ShowsMsg j (media kind other) = get "type" null j ≡ some (str kind)

-- Items that show the values of a list, one for one.
abbrev pub ShowsAll : {X : Type 0} → (Json → X → Type 0) → Items → List X → Type 0
ShowsAll r nil [] = Unit
ShowsAll r nil (x ∷ xs) = ⊥
ShowsAll r (cons j js) [] = ⊥
ShowsAll r (cons j js) (x ∷ xs) = r j x × ShowsAll r js xs

-- An object that shows a list under a key, or has no such key and shows the empty list.
abbrev pub ShowsAt : {X : Type 0} → (Json → X → Type 0) → (key : String) → Json → List X → Type 0
ShowsAt r key j xs = (js : Items) × (get key (arr nil) j ≡ some (arr js)) × ShowsAll r js xs

abbrev pub ShowsChange : Json → List Sent → Type 0
ShowsChange j msgs =
    (value : Json) × (get "value" (obj end) j ≡ some value) × ShowsAt ShowsMsg "messages" value msgs

abbrev pub ShowsEntry : Json → List (List Sent) → Type 0
ShowsEntry = ShowsAt ShowsChange "changes"

abbrev pub Shows : Json → Notification → Type 0
Shows = ShowsAt ShowsEntry "entry"

-- The messages that a sequence of calls hands to the agent.
abbrev pub forwarded : List Call → List Json
forwarded [] = []
forwarded (forward m ∷ calls) = m ∷ forwarded calls
forwarded (reply to t ∷ calls) = forwarded calls

abbrev pub texts_of : Sent → List Json
texts_of (text sender content) = if is_empty content then [] else str content ∷ []
texts_of (media kind other) = []

abbrev pub gather : {X : Type 0} → (X → List Json) → List X → List Json
gather t [] = []
gather t (x ∷ xs) = t x ++ gather t xs

-- The texts of a notification that are not empty, in order.
abbrev pub texts : Notification → List Json
texts = gather (gather (gather texts_of))

-- A loop body that goes on, and forwards `fresh` behind what was forwarded before.
abbrev Forwards : (body : Json → List Call → Progress) → Json → List Json → Type 0
Forwards body x fresh =
    (calls : List Call)
    → (more : List Call) × (body x calls ≡ going more) × (forwarded more ≡ forwarded calls ++ fresh)
