-- ===== src/Services/Sessions/Send.antt =====
-- src/mob/services/sessions.py, `send_message`, directly to the pod or through `kubectl
-- port-forward`. What the request does to the outside is a list of effects, in order; what the
-- outside answers is an argument.
use mob.Prelude.{
  ℕ, String, ◌<>◌, ◌==◌, Bool, not, ◌||◌, Option, none, some, List, [], ◌∷◌, ◌++◌, Assoc, nat_eq,
  is_truthy, or_else, if◌then◌else◌,
}
use mob.Json.{Json, str, get}
use mob.Models.{Session}
use mob.Orm.{Orm, Db}
use mob.Transaction.{service_error, uncaught, Result, ok, err}
use mob.Services.Sessions.Live.{Cluster, Status, get_text, get_session_live_status, not_found}

abbrev pub agent_http_port : ℕ
agent_http_port = 8081

abbrev pub Headers : Type 0
Headers = Assoc String

-- `target` is the address and the port that the client connects to.
pub data Effect : Type 0 where
  start_port_forward : (pod : String) (local_port : ℕ) → Effect
  post : (host : String) (port : ℕ) (message : String) (headers : Headers) → Effect
  terminate_port_forward : Effect

-- The answer of the HTTP client: an exception, or a status code with the JSON of the body, if it is
-- JSON.
pub data Reply : Type 0 where
  connect_error timeout broken : Reply
  response : (status_code : ℕ) (body : Option Json) → Reply

-- The process of `kubectl port-forward`: it ends during the first second, with an error text, or
-- while the message is under way, or it runs until it is terminated.
pub data Process : Type 0 where
  exited : (stderr : String) → Process
  ended : Process
  alive : Process

-- Everything outside that one message meets. `pod_ip` is `none` if the pod cannot be read, and
-- `some none` if it has no address; `shown` is Python's `str` of a message that is not a text.
pub record Network : Type 0 where
  pub local_mode : Bool
  pub free_port : ℕ
  pub kubectl : Process
  pub core_client : Bool
  pub pod_ip : String → Option (Option String)
  pub reply : Reply
  pub shown : Json → String

abbrev pub Outcome : Type 0 → Type 0
Outcome A = Result A × List Effect

abbrev pub return : {A : Type 0} → A → Outcome A
return a = (ok a, [])

abbrev pub throw : {A : Type 0} → String → ℕ → Outcome A
throw message code = (err (service_error message code), [])

infixl 5 ◌>>=◌ ◌>>◌
abbrev pub and_then : {A B : Type 0} → Result A → List Effect → (A → Outcome B) → Outcome B
and_then (ok a) effects f = let (r, more) = f a in (r, effects ++ more)
and_then (err e) effects f = (err e, effects)

abbrev pub ◌>>=◌ : {A B : Type 0} → Outcome A → (A → Outcome B) → Outcome B
m >>= f = let (r, effects) = m in and_then r effects f

abbrev pub ◌>>◌ : {A B : Type 0} → Outcome A → Outcome B → Outcome B
m >> n = m >>= λ _. n

abbrev pub perform : Effect → Outcome (Unit {0})
perform e = (ok tt, e ∷ [])

-- `finally`
abbrev pub finally : {A : Type 0} → Outcome A → Outcome (Unit {0}) → Outcome A
finally m (ok _, effects) = (m.0, m.1 ++ effects)
finally m (err e, effects) = (err e, m.1 ++ effects)

-- `pf_proc.terminate()`, which raises a ProcessLookupError for a process that has ended
unfoldable pub terminate : Process → Outcome (Unit {0})
terminate (exited stderr) = (err uncaught, terminate_port_forward ∷ [])
terminate ended = (err uncaught, terminate_port_forward ∷ [])
terminate alive = perform terminate_port_forward

-- `resp.json()`, whatever JSON it is
unfoldable pub json_of : Option Json → Outcome Json
json_of none = (err uncaught, [])
json_of (some body) = return body

-- A message of an error: a text is its own message.
unfoldable pub as_message : (Json → String) → Json → String
as_message shown (str s) = s
as_message shown j = shown j

-- `raise ServiceError(data.get("error", "Agent is busy"), 409)`; only an object has a `get`.
unfoldable pub refuse_busy : (Json → String) → Option Json → Outcome Json
refuse_busy shown none = (err uncaught, [])
refuse_busy shown (some message) = throw (as_message shown message) 409

-- The tests of the status code, the same in both paths.
unfoldable pub check_response : (Json → String) → ℕ → Option Json → Outcome Json
check_response shown code body =
    if nat_eq code 409
    then (do b ← json_of body; refuse_busy shown (get "error" (str "Agent is busy") b))
    else if nat_eq code 401
    then throw "Agent authentication failed" 502
    else if not (nat_eq code 200)
    then throw "Agent returned an error" 502
    else json_of body

unfoldable pub check_reply : (unreachable : String) → (shown : Json → String) → Reply → Outcome Json
check_reply unreachable shown connect_error = throw unreachable 502
check_reply unreachable shown timeout = throw "Agent request timed out" 504
check_reply unreachable shown broken = (err uncaught, [])
check_reply unreachable shown (response code body) = check_response shown code body

-- `pod.status.pod_ip`, or the error that there is none
unfoldable pub address_of : (pod_name : String) → Option (Option String) → Outcome String
address_of pod_name none = throw ("Pod " <> (pod_name <> " not found")) 502
address_of pod_name (some none) = throw ("Pod " <> (pod_name <> " has no IP assigned")) 502
address_of pod_name (some (some String.[])) =
    throw ("Pod " <> (pod_name <> " has no IP assigned")) 502
address_of pod_name (some (some (String.◌∷◌ c s))) = return (String.◌∷◌ c s)

-- `_get_pod_ip_sync`
unfoldable pub get_pod_ip : Network → String → Outcome String
get_pod_ip net pod_name =
    if net.core_client
    then address_of pod_name (net.pod_ip pod_name)
    else throw "Kubernetes is not available" 503

-- The message through the tunnel, once it is up.
unfoldable pub post_local : Network → String → Headers → Outcome Json
post_local net message headers = do
  perform (post "127.0.0.1" net.free_port message headers)
  check_reply "Agent is unreachable via port-forward" net.shown net.reply

unfoldable pub through_tunnel : Network → Process → String → Headers → Outcome Json
through_tunnel net (exited stderr) message headers = throw ("Port-forward failed: " <> stderr) 502
through_tunnel net ended message headers = post_local net message headers
through_tunnel net alive message headers = post_local net message headers

-- `_send_via_port_forward`
unfoldable pub send_via_port_forward :
    Network → (pod_name message : String) → Headers → Outcome Json
send_via_port_forward net pod_name message headers = do
  perform (start_port_forward pod_name net.free_port)
  finally (through_tunnel net net.kubectl message headers) (terminate net.kubectl)

-- The rest of `send_message` once the pod's name and the headers are known.
unfoldable pub route_message : Network → (pod_name message : String) → Headers → Outcome Json
route_message net pod_name message headers =
    if net.local_mode then send_via_port_forward net pod_name message headers else do
      pod_ip ← get_pod_ip net pod_name
      perform (post pod_ip agent_http_port message headers)
      check_reply "Agent is unreachable" net.shown net.reply

-- `getattr(get_settings(), "agent_auth_token", None)`: `Settings` of src/mob/config.py declares no
-- such field.
unfoldable pub agent_auth_token : Option String
agent_auth_token = none

unfoldable pub auth_headers : Option String → Headers
auth_headers token =
    if is_truthy token then ("Authorization", "Bearer " <> or_else token "") ∷ [] else []

abbrev pub is_running : String → Bool
is_running state = state == "Idle" || state == "Busy"

abbrev pub not_running : String → String
not_running String.[] = "Agent is not running (state: unknown)"
not_running (String.◌∷◌ c s) = "Agent is not running (state: " <> (String.◌∷◌ c s <> ")")

unfoldable pub deliver : Network → Status → String → Outcome Json
deliver net live_status message =
    let state = or_else (get_text "state" live_status) "" in
    let pod = get_text "podName" live_status in
    if not (is_running state)
    then throw (not_running state) 409
    else if not (is_truthy pod)
    then throw "Agent pod name not available" 502
    else route_message net (or_else pod "") message (auth_headers agent_auth_token)

unfoldable pub send_found : Cluster → Network → Option Session → String → Outcome Json
send_found k8s net none message = (err not_found, [])
send_found k8s net (some sess) message = deliver net (get_session_live_status k8s sess.id) message

unfoldable pub send_message :
    {o : Orm} → Cluster → Network → Db o → (session_id message : String) → Outcome Json
send_message {o} k8s net db session_id message =
    send_found k8s net (o.sessions.get db.sessions session_id) message
