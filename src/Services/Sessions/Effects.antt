-- ===== src/Services/Sessions/Effects.antt =====
-- What happens on each way of `send_message` of src/mob/services/sessions.py to a pod.
use mob.Prelude.{
  ℕ, String, ◌≡◌, refl, ap, ◌⊎◌, inl, inr, true, false, Option, none, some, [], ◌∷◌, ◌++◌, arith,
}
use mob.Json.{Json, str, get}
use mob.Services.Sessions.Send.{
  Outcome, start_port_forward, post, terminate_port_forward, Reply, connect_error, timeout, broken,
  response, Network, Headers, check_reply, check_response, refuse_busy, json_of, Process, exited,
  ended, alive, terminate, finally, post_local, through_tunnel, send_via_port_forward,
  route_message, agent_http_port,
}
use mob.Services.Sessions.Delivery.{Reachable, get_pod_ip_cases}

-- Nothing but the client's own work follows a call.
refuse_busy-effects :
    (shown : Json → String) (message : Option Json) → (refuse_busy shown message).1 ≡ []
unfolding refuse_busy
refuse_busy-effects shown none = refl
refuse_busy-effects shown (some message) = refl

check_response-effects :
    (shown : Json → String) (code : ℕ) (body : Option Json)
    → (check_response shown code body).1 ≡ []
unfolding check_response json_of
check_response-effects shown code none = ground arith
check_response-effects shown code (some body) =
    ground (arith, refuse_busy-effects shown (get "error" (str "Agent is busy") body))

pub check_reply-effects :
    (m : String) (shown : Json → String) (r : Reply) → (check_reply m shown r).1 ≡ []
unfolding check_reply
check_reply-effects m shown connect_error = refl
check_reply-effects m shown timeout = refl
check_reply-effects m shown broken = refl
check_reply-effects m shown (response code body) = check_response-effects shown code body

-- `terminate` is called, also on a process that has ended.
finally-effects :
    (m : Outcome Json) (p : Process)
    → (finally m (terminate p)).1 ≡ m.1 ++ terminate_port_forward ∷ []
unfolding terminate
finally-effects m (exited stderr) = refl
finally-effects m ended = refl
finally-effects m alive = refl

-- What passes through a tunnel: nothing, or the message, to its local end.
pub through_tunnel-cases :
    (net : Network) (p : Process) (message : String) (headers : Headers)
    → ((through_tunnel net p message headers).1 ≡ [])
      ⊎ ((through_tunnel net p message headers).1
          ≡ post "127.0.0.1" net.free_port message headers ∷ [])
unfolding through_tunnel post_local
through_tunnel-cases net (exited stderr) message headers = inl refl
through_tunnel-cases net ended message headers = inr (
    ap (λ xs. post "127.0.0.1" net.free_port message headers ∷ xs)
      (check_reply-effects "Agent is unreachable via port-forward" net.shown net.reply))
through_tunnel-cases net alive message headers = inr (
    ap (λ xs. post "127.0.0.1" net.free_port message headers ∷ xs)
      (check_reply-effects "Agent is unreachable via port-forward" net.shown net.reply))

-- Through a tunnel: it is opened first and closed last, whatever happens between, and the message
-- is posted at most once, to its local end.
pub tunnel_effects :
    (net : Network) (pod message : String) (headers : Headers)
    → (send_via_port_forward net pod message headers).1
      ≡ start_port_forward pod net.free_port
        ∷ ((through_tunnel net net.kubectl message headers).1 ++ terminate_port_forward ∷ [])
unfolding send_via_port_forward
tunnel_effects net pod message headers =
    ap (λ xs. start_port_forward pod net.free_port ∷ xs)
      (finally-effects (through_tunnel net net.kubectl message headers) net.kubectl)

pub local_trace :
    (net : Network) (pod message : String) (headers : Headers)
    → net.local_mode ≡ true
    → (route_message net pod message headers).1
      ≡ start_port_forward pod net.free_port
        ∷ ((through_tunnel net net.kubectl message headers).1 ++ terminate_port_forward ∷ [])
unfolding route_message
local_trace net pod message headers local = ground (arith, tunnel_effects net pod message headers)

pub remote_trace :
    (net : Network) (pod message : String) (headers : Headers)
    → net.local_mode ≡ false
    → ((route_message net pod message headers).1 ≡ [])
      ⊎ ((ip : String) × Reachable net pod ip
          × ((route_message net pod message headers).1
              ≡ post ip agent_http_port message headers ∷ []))
unfolding route_message
remote_trace net pod message headers remote = elim (get_pod_ip_cases net pod) [
  | inl (e, p, h) ↦ inl (ground arith)
  | inr (ip, p, r) ↦
      inr (ip, r, ground (arith, check_reply-effects "Agent is unreachable" net.shown net.reply))
]
