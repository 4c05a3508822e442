-- ===== src/Services/Sessions/Delivery.antt =====
-- When `send_message` of src/mob/services/sessions.py answers.
use mathlib.Core.Path.{subst}
use mob.Prelude.{
  ℕ, String, eq_of_==, ==_of_eq, ◌≡◌, refl, ap, sym, ◌∙◌, ◌⊎◌, inl, inr, ◌↔◌, Bool, true, false,
  Option, none, some, [], arith, Bool-cases, Option-cases, is_truthy, or_else,
}
use mob.Json.{Json, str, get}
use mob.Models.{Session}
use mob.Orm.{Orm, Db}
use mob.Transaction.{Error, service_error, ok, err}
use mob.Services.Sessions.Live.{Cluster, Status, get_text, get_session_live_status}
use mob.Services.Sessions.Send.{
  Reply, connect_error, timeout, broken, response, Network, Headers, address_of, check_reply,
  check_response, refuse_busy, json_of, get_pod_ip, Process, exited, ended, alive, terminate,
  finally, post_local, through_tunnel, agent_auth_token, send_via_port_forward, route_message,
  auth_headers, is_running, deliver, send_found, send_message,
}

refuse_busy-err :
    (shown : Json → String) (message : Option Json) (answer : Json)
    → ¬ ((refuse_busy shown message).0 ≡ ok answer)
unfolding refuse_busy
refuse_busy-err shown none answer h = cc
refuse_busy-err shown (some message) answer h = cc

check_response_iff :
    (shown : Json → String) (code : ℕ) (body : Option Json) (answer : Json)
    → ((check_response shown code body).0 ≡ ok answer) ↔ ((code ≡ 200) × (body ≡ some answer))
unfolding check_response json_of
check_response_iff shown code none answer = ground arith
check_response_iff shown code (some body) answer =
    ground (arith, refuse_busy-err shown (get "error" (str "Agent is busy") body) answer)

check_reply_iff :
    (m : String) (shown : Json → String) (r : Reply) (answer : Json)
    → ((check_reply m shown r).0 ≡ ok answer) ↔ (r ≡ response 200 (some answer))
unfolding check_reply
check_reply_iff m shown connect_error answer = (λ h. cc, λ h. cc)
check_reply_iff m shown timeout answer = (λ h. cc, λ h. cc)
check_reply_iff m shown broken answer = (λ h. cc, λ h. cc)
check_reply_iff m shown (response code body) answer =
    ground (arith, check_response_iff shown code body answer)

-- The address of a pod that can be reached: not empty.
abbrev pub Reachable : Network → String → String → Type 0
Reachable net pod ip =
    (net.core_client ≡ true) × (net.pod_ip pod ≡ some (some ip)) × (is_truthy (some ip) ≡ true)

abbrev IsAddress : Option (Option String) → String → Type 0
IsAddress a ip = (a ≡ some (some ip)) × (is_truthy (some ip) ≡ true)

not_empty : (ip : String) → some (some "") ≡ some (some ip) → ¬ (is_truthy (some ip) ≡ true)
not_empty ip e h =
    let same : "" ≡ ip = cc in
    let no_text : is_truthy (some "") ≡ true =
      subst (λ x. is_truthy (some x) ≡ true) (sym same) h in
    cc

IsAddress-cases :
    (pod : String) (a : Option (Option String))
    → ((e : Error) × (address_of pod a ≡ (err e, [])) × ((ip : String) → ¬ IsAddress a ip))
      ⊎ ((ip : String) × (address_of pod a ≡ (ok ip, [])) × IsAddress a ip)
unfolding address_of
IsAddress-cases pod none = inl (_, refl, λ ip h. cc (h.0))
IsAddress-cases pod (some none) = inl (_, refl, λ ip h. cc (h.0))
IsAddress-cases pod (some (some String.[])) = inl (_, refl, λ ip h. not_empty ip h.0 h.1)
IsAddress-cases pod (some (some (String.◌∷◌ c s))) = inr (_, refl, (refl, refl))

pub get_pod_ip_cases :
    (net : Network) (pod : String)
    → ((e : Error) × (get_pod_ip net pod ≡ (err e, [])) × ((ip : String) → ¬ Reachable net pod ip))
      ⊎ ((ip : String) × (get_pod_ip net pod ≡ (ok ip, [])) × Reachable net pod ip)
unfolding get_pod_ip
get_pod_ip_cases net pod = elim (Bool-cases net.core_client) [
  | inr down ↦ inl (service_error "Kubernetes is not available" 503, rw down, λ ip h. cc (h.0))
  | inl up ↦ elim (IsAddress-cases pod (net.pod_ip pod)) [
    | inl (e, p, h) ↦ inl (e, rw (up, p), λ ip k. h ip (k.1, k.2))
    | inr (ip, p, h) ↦ inr (ip, rw (up, p), (up, h.0, h.1))
  ]
]

-- A message can get through to the pod.
abbrev pub Open : Network → String → Type 0
Open net pod =
    (net.local_mode ≡ true) × (net.kubectl ≡ alive)
    ⊎ (net.local_mode ≡ false) × ((ip : String) × Reachable net pod ip)

not-Open :
    (net : Network) (pod : String)
    → net.local_mode ≡ false
    → ((ip : String) → ¬ Reachable net pod ip)
    → ¬ Open net pod
not-Open net pod remote h (inl (local, up)) = cc
not-Open net pod remote h (inr (_, (ip, r))) = h ip r

tunnel_iff :
    (net : Network) (p : Process) (message : String) (headers : Headers) (answer : Json)
    → ((finally (through_tunnel net p message headers) (terminate p)).0 ≡ ok answer)
      ↔ ((p ≡ alive) × (net.reply ≡ response 200 (some answer)))
unfolding terminate through_tunnel post_local
tunnel_iff net (exited stderr) message headers answer = (λ h. cc, λ h. cc)
tunnel_iff net ended message headers answer = (λ h. cc, λ h. cc)
tunnel_iff net alive message headers answer =
    let reply =
      check_reply_iff "Agent is unreachable via port-forward" net.shown net.reply answer in
    (λ h. (refl, reply.0 h), λ h. reply.1 (h.1))

local_Open :
    (net : Network) (pod : String) → net.local_mode ≡ true → Open net pod → net.kubectl ≡ alive
local_Open net pod local (inl (_, up)) = up
local_Open net pod local (inr (remote, _)) = absurd cc

route_message_iff :
    (net : Network) (pod message : String) (headers : Headers) (answer : Json)
    → ((route_message net pod message headers).0 ≡ ok answer)
      ↔ (Open net pod × (net.reply ≡ response 200 (some answer)))
unfolding route_message send_via_port_forward
route_message_iff net pod message headers answer = elim (Bool-cases net.local_mode) [
  | inl local ↦
      let tunnel = tunnel_iff net net.kubectl message headers answer in
      let passed : (route_message net pod message headers).0
          ≡ (finally (through_tunnel net net.kubectl message headers) (terminate net.kubectl)).0 =
        ground arith in
      (
        λ q. let (up, reply) = tunnel.0 (sym passed ∙ q) in (inl (local, up), reply),
        λ (way, reply). passed ∙ tunnel.1 (local_Open net pod local way, reply),
      )
  | inr remote ↦ elim (get_pod_ip_cases net pod) [
    | inl (e, p, h) ↦
        let failed : (route_message net pod message headers).0 ≡ err e = ground arith in
        (λ q. cc, λ (through, r). absurd (not-Open net pod remote h through))
    | inr (ip, p, h) ↦
        let passed : (route_message net pod message headers).0
            ≡ (check_reply "Agent is unreachable" net.shown net.reply).0 =
          ground arith in
        let reply = check_reply_iff "Agent is unreachable" net.shown net.reply answer in
        (λ q. (inr (remote, (ip, h)), reply.0 (sym passed ∙ q)), λ (_, r). passed ∙ reply.1 r)
  ]
]

-- The state of a status, as `send_message` reads it.
abbrev pub state_text : Status → String
state_text status = or_else (get_text "state" status) ""

-- The states in which an agent takes messages.
abbrev pub Runs : String → Type 0
Runs state = (state ≡ "Idle") ⊎ (state ≡ "Busy")

pub is_running_iff : (state : String) → (is_running state ≡ true) ↔ Runs state
is_running_iff state = ground (
  arith,
  eq_of_== state "Idle",
  eq_of_== state "Busy",
  ==_of_eq state "Idle",
  ==_of_eq state "Busy",
)

-- What has to hold for an answer: the live state is Idle or Busy, the status names a pod, the way
-- to the pod is open, and the pod answers 200 with the JSON of the answer.
pub record Delivers (net : Network) (status : Status) (answer : Json) : Type 0 where
  pub runs : Runs (state_text status)
  pub pod : String
  pub named : get_text "podName" status ≡ some pod
  pub named_well : is_truthy (some pod) ≡ true
  pub through : Open net pod
  pub replied : net.reply ≡ response 200 (some answer)

not_both : {b : Bool} → b ≡ false → ¬ (b ≡ true)
not_both h k = cc

pod_cases :
    (p : Option String)
    → (is_truthy p ≡ false) ⊎ ((pod : String) × (p ≡ some pod) × (is_truthy (some pod) ≡ true))
pod_cases none = inl refl
pod_cases (some String.[]) = inl refl
pod_cases (some (String.◌∷◌ c s)) = inr (String.◌∷◌ c s, refl, refl)

deliver_iff :
    (net : Network) (status : Status) (message : String) (answer : Json)
    → ((deliver net status message).0 ≡ ok answer) ↔ Delivers net status answer
unfolding deliver
deliver_iff net status message answer = elim (Bool-cases (is_running (state_text status))) [
  | inr idle ↦ (
    λ q. ground arith,
    λ d. absurd (not_both idle ((is_running_iff (state_text status)).1 d.runs)),
  )
  | inl running ↦ elim (pod_cases (get_text "podName" status)) [
    | inl empty ↦
        (λ q. ground arith, λ d. absurd (not_both empty (ap is_truthy d.named ∙ d.named_well)))
    | inr (pod, named, well) ↦
        let routed : (deliver net status message).0
            ≡ (route_message net pod message (auth_headers agent_auth_token)).0 =
          ground arith in
        let sent = route_message_iff net pod message (auth_headers agent_auth_token) answer in
        (
          λ q.
              let (through, replied) = sent.0 (sym routed ∙ q) in
              record {
                runs = (is_running_iff (state_text status)).0 running;
                pod = pod;
                named = named;
                named_well = well;
                through = through;
                replied = replied;
              },
          λ d.
              let same : pod ≡ d.pod = cc (named, d.named) in
              routed ∙ sent.1 (subst (Open net) (sym same) d.through, d.replied),
        )
  ]
]

-- send_message answers exactly if the session is stored, its live state is Idle or Busy, its
-- status names a pod, in local mode kubectl runs until it is terminated and otherwise the address
-- of the pod can be read and is not empty, and the pod answers 200 with JSON, which is the
-- answer.
pub send_message_iff :
    {o : Orm} (k8s : Cluster) (net : Network) (db : Db o) (id message : String) (answer : Json)
    → ((send_message k8s net db id message).0 ≡ ok answer) ↔ (
        (a : Session) × (o.sessions.get db.sessions id ≡ some a)
        × Delivers net (get_session_live_status k8s a.id) answer)
unfolding send_message send_found
send_message_iff {o} k8s net db id message answer =
    elim (Option-cases (o.sessions.get db.sessions id)) [
      | inl absent ↦ (λ q. ground arith, λ (a, e, d). cc)
      | inr (a, e) ↦
          let found : (send_message k8s net db id message).0
              ≡ (deliver net (get_session_live_status k8s a.id) message).0 =
            ground arith in
          let delivered = deliver_iff net (get_session_live_status k8s a.id) message answer in
          (
            λ q. (a, e, delivered.0 (sym found ∙ q)),
            λ (b, e', d).
                let same : a ≡ b = cc in
                found
                ∙ delivered.1 (
                    subst (λ (x : Session). Delivers net (get_session_live_status k8s x.id) answer)
                      (sym same) d),
          )
    ]
