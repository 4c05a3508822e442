-- ===== src/Services/Sessions/Traffic.antt =====
-- The port-forwards of `send_message` of src/mob/services/sessions.py.
use mathlib.Core.Path.{subst}
use mob.Prelude.{
  ℕ, String, ◌≡◌, sym, In-append, inl, inr, false, List, [], ◌∷◌, ◌++◌, In, arith, Bool-cases,
  Option-cases, is_truthy, or_else,
}
use mob.Orm.{Orm, Db}
use mob.Services.Sessions.Live.{Cluster, Status, get_text, get_session_live_status}
use mob.Services.Sessions.Send.{
  Effect, start_port_forward, terminate_port_forward, Network, Headers, agent_auth_token,
  through_tunnel, route_message, auth_headers, is_running, deliver, send_found, send_message,
}
use mob.Services.Sessions.Delivery.{state_text}
use mob.Services.Sessions.Effects.{through_tunnel-cases, local_trace, remote_trace}

abbrev pub Closes : String → ℕ → List Effect → Type 0
Closes pod port trace =
    (middle : List Effect) × (trace
      ≡ start_port_forward pod port ∷ (middle ++ terminate_port_forward ∷ []))

not-In_start :
    (net : Network) (message : String) (headers : Headers) (pod : String) (port : ℕ)
    → ¬ In (start_port_forward pod port) (through_tunnel net net.kubectl message headers).1
not-In_start net message headers pod port i =
    ground (arith, through_tunnel-cases net net.kubectl message headers)

first_start :
    (p q : String) (m n : ℕ) (xs : List Effect)
    → ¬ In (start_port_forward p m) xs
    → In (start_port_forward p m) (start_port_forward q n ∷ (xs ++ terminate_port_forward ∷ []))
    → start_port_forward p m ≡ start_port_forward q n
first_start p q m n xs none_inside (inl e) = e
first_start p q m n xs none_inside (inr i) =
    elim (In-append xs (terminate_port_forward ∷ []) (start_port_forward p m) i) [
      | inl inside ↦ absurd (none_inside inside)
      | inr end ↦ ground arith
    ]

remote_starts_none :
    (net : Network) (pod message : String) (headers : Headers) (p : String) (port : ℕ)
    → net.local_mode ≡ false
    → ¬ In (start_port_forward p port) (route_message net pod message headers).1
remote_starts_none net pod message headers p port remote i =
    ground (arith, remote_trace net pod message headers remote)

route-Closes :
    (net : Network) (pod message : String) (headers : Headers) (p : String) (port : ℕ)
    → In (start_port_forward p port) (route_message net pod message headers).1
    → Closes p port (route_message net pod message headers).1
route-Closes net pod message headers p port i = elim (Bool-cases net.local_mode) [
  | inr remote ↦ absurd (remote_starts_none net pod message headers p port remote i)
  | inl local ↦
      let trace = local_trace net pod message headers local in
      let inside = (through_tunnel net net.kubectl message headers).1 in
      let same =
        first_start p pod port net.free_port inside (not-In_start net message headers p port)
          (subst (In (start_port_forward p port)) trace i) in
      (inside, cc (trace, same))
]

deliver-Closes :
    (net : Network) (status : Status) (message p : String) (port : ℕ)
    → In (start_port_forward p port) (deliver net status message).1
    → Closes p port (deliver net status message).1
unfolding deliver
deliver-Closes net status message p port i =
    let pod = or_else (get_text "podName" status) "" in
    let routed = route_message net pod message (auth_headers agent_auth_token) in
    elim (Bool-cases (is_running (state_text status))) [
      | inr idle ↦ absurd (ground arith)
      | inl running ↦ elim (Bool-cases (is_truthy (get_text "podName" status))) [
        | inr unnamed ↦ absurd (ground arith)
        | inl named ↦
            let same : (deliver net status message).1 ≡ routed.1 = ground arith in
            subst (Closes p port) (sym same) (
              route-Closes net pod message (auth_headers agent_auth_token) p port
                (subst (In (start_port_forward p port)) same i))
      ]
    ]

-- A port-forward that send_message starts is its first effect, and its termination is the last,
-- also when the message fails.
pub send_message-Closes :
    {o : Orm} (k8s : Cluster) (net : Network) (db : Db o) (id message p : String) (port : ℕ)
    → In (start_port_forward p port) (send_message k8s net db id message).1
    → Closes p port (send_message k8s net db id message).1
unfolding send_message send_found
send_message-Closes {o} k8s net db id message p port i =
    elim (Option-cases (o.sessions.get db.sessions id)) [
      | inl absent ↦ absurd (ground arith)
      | inr (a, e) ↦
          let found : (send_message k8s net db id message).1
              ≡ (deliver net (get_session_live_status k8s a.id) message).1 =
            ground arith in
          subst (Closes p port) (sym found) (
            deliver-Closes net (get_session_live_status k8s a.id) message p port
              (subst (In (start_port_forward p port)) found i))
    ]
