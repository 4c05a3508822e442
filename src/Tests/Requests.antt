-- ===== src/Tests/Requests.antt =====
-- Local requests, the pod's handlers, a notification of WhatsApp and references of the command line.
use mob.Prelude.{
  true, is_truthy, false, String, ◌≡◌, refl, ◌↔◌, ◌⊎◌, none, some, List, [], ◌∷◌, Assoc, ◌-◌, ◌≤◌,
  get_elem?,
}
use mob.Orm.Memory.{get}
use mob.Transaction.{uncaught, run, find, require, raise, ◌>>=◌}
use mob.Services.Sessions.Control.{stop_session}
use mob.Services.Sessions.Live.{not_found}
use mob.Backend.{Request, Response, perform}
use mob.Backend.Atomicity.{perform_atomic}
use mob.Agent.Entrypoint.{Event, on_startup, arrive, enter, patched, complete, steps, fresh}
use mob.Agent.Exclusion.{IsExclusive, schedule-IsExclusive}
use mob.Json
use mob.Json.{Json, str, arr, obj, nil, cons, field, end}
use mob.Webhook.Calls.{Agent}
use mob.Webhook.Telegram.{same_text, telegram_webhook}
use mob.Webhook.Telegram.Calls.{IsExchange, telegram_webhook-IsExchange}
use mob.Webhook.Whatsapp.{Settings}
use mob.Webhook.Whatsapp.Messages.{text, media, Notification}
use mob.Cli.Resolver.{Item, found, Config, resolve_by_position}
use mob.Cli.Resolver.Laws.{resolve_by_position_iff}
use mob.Tests.Database.{stored}
use mob.Tests.Cluster.{world}

perform_atomic_example :
    ((run (perform world (Request.stop_session "s9")) stored).1 ≡ stored)
    ⊎ (not_found ≡ uncaught) × ((v : Response) × (world.converts v ≡ false))
unfolding run perform stop_session find require raise get ◌>>=◌
perform_atomic_example = perform_atomic world (Request.stop_session "s9") stored not_found tt refl

-- Two messages at once: the second waits for the lock and is refused.
abbrev schedule : List Event
schedule =
    arrive 0 "one" (some "Bearer t")
    ∷ arrive 1 "two" (some "Bearer t")
    ∷ enter 0
    ∷ patched 0
    ∷ enter 1
    ∷ complete 0 ("one" ∷ "answer" ∷ []) "answer"
    ∷ []

schedule-IsExclusive_example :
    IsExclusive (steps schedule (fresh "t")) × IsExclusive (steps schedule (on_startup (fresh "t")))
schedule-IsExclusive_example = schedule-IsExclusive "t" schedule

abbrev notification : Notification
notification = ((text "31600" "hello" ∷ media "image" refl ∷ []) ∷ [] ∷ []) ∷ []

abbrev one_item : Json → Json
one_item j = arr (cons j nil)

-- A text, an image and the status of another message, in a notification with its other fields.
abbrev received : Json
received = obj (
    field "object" (str "whatsapp_business_account") (
      field "entry"
        (one_item (
          obj (
            field "id" (str "102") (
              field "changes"
                (arr (
                  cons
                    (obj (
                      field "value"
                        (obj (
                          field "messaging_product" (str "whatsapp") (
                            field "messages"
                              (arr (
                                cons
                                  (obj (
                                    field "from" (str "31600") (
                                      field "id" (str "wamid.1") (
                                        field "type" (str "text") (
                                          field "text" (obj (field "body" (str "hello") end))
                                            end)))))
                                  (cons (obj (field "type" (str "image") end)) nil)))
                              end)))
                        (field "field" (str "messages") end)))
                    (cons (obj (field "value" (obj (field "statuses" (arr nil) end)) end)) nil)))
                end))))
        end))

-- An agent that fails.
abbrev silent : Agent
silent calls message = none

abbrev settings : Settings
settings = record { app_secret = none; phone_number_id = none; access_token = none }

abbrev items : List Item
items =
    record { id = "i1"; columns = ("identifier", "acme") ∷ [] }
    ∷ record { id = "i2"; columns = ("identifier", "mob") ∷ [] }
    ∷ []

resolve_by_position_iff_example :
    (resolve_by_position "organization" 2 items ≡ found "i2")
    ↔ ((item : Item) × (1 ≤ 2) × (get_elem? items (2 - 1) ≡ some item) × (item.id ≡ "i2"))
resolve_by_position_iff_example = resolve_by_position_iff "organization" 2 items "i2"

-- A domain that another organization owns.
abbrev domains_get : (path : String) → Assoc String → List Item
domains_get path [] = items
domains_get path (kv ∷ params) = []

abbrev domains : Config
domains = record {
  list_path = "/domains";
  name_field = "identifier";
  filter_param = some "organization_id";
}

abbrev in_organization : Assoc String
in_organization = ("organization_id", "o1") ∷ []

abbrev telegram_update : Json
telegram_update = obj (
    field "message"
      (obj (field "text" (str "hi") (field "chat" (obj (field "id" (str "7") end)) end))) end)

telegram_webhook-IsExchange_example :
    IsExchange (telegram_webhook silent (some "secret") none (some "secret") telegram_update).1
    × ((is_truthy (some "secret") ≡ false)
        ⊎ (same_text (some "secret") (some "secret") ≡ true)
        ⊎ ((telegram_webhook silent (some "secret") none (some "secret") telegram_update).1 ≡ []))
telegram_webhook-IsExchange_example =
    telegram_webhook-IsExchange silent (some "secret") none (some "secret") telegram_update
