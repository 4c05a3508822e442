-- ===== src/Services/Sessions/Posting.antt =====
-- The messages that `send_message` of src/mob/services/sessions.py posts.
use mathlib.Core.Path.{subst}
use mob.Prelude.{
  ℕ, String, ◌≡◌, refl, sym, ◌∙◌, ◌⊎◌, inl, inr, true, false, Option, none, some, List, [], ◌∷◌,
  ◌++◌, In, arith, Bool-cases, Option-cases, is_truthy, or_else,
}
use mob.Models.{Session}
use mob.Orm.{Orm, Db}
use mob.Services.Sessions.Live.{Cluster, Status, get_text, get_session_live_status}
use mob.Services.Sessions.Send.{
  Effect, start_port_forward, post, terminate_port_forward, Network, Headers, agent_auth_token,
  through_tunnel, route_message, auth_headers, is_running, deliver, send_found, send_message,
  agent_http_port,
}
use mob.Services.Sessions.Delivery.{state_text, Runs, is_running_iff, Reachable}
use mob.Services.Sessions.Effects.{through_tunnel-cases, local_trace, remote_trace}

-- Where a message to a pod may go: to the local end of the tunnel to it that was opened before, or
-- to the port of its own address.
abbrev pub IsTarget : Network → (pod : String) → List Effect → (host : String) → ℕ → Type 0
IsTarget net pod trace host port =
    (net.local_mode ≡ true)
      × (host ≡ "127.0.0.1")
      × ((later : List Effect) × (trace ≡ start_port_forward pod port ∷ later))
    ⊎ (net.local_mode ≡ false) × (port ≡ 8081) × Reachable net pod host

tunnel_posts :
    (net : Network) (pod : String) (message : String) (headers : Headers) (host m : String)
    (port : ℕ) (h : Headers)
    → In (post host port m h) (
        start_port_forward pod net.free_port
        ∷ ((through_tunnel net net.kubectl message headers).1 ++ terminate_port_forward ∷ []))
    → post host port m h ≡ post "127.0.0.1" net.free_port message headers
tunnel_posts net pod message headers host m port h i =
    ground (arith, through_tunnel-cases net net.kubectl message headers)

post_args :
    (host m : String) (port : ℕ) (h : Headers) (host' m' : String) (port' : ℕ) (h' : Headers)
    → post host port m h ≡ post host' port' m' h'
    → (host ≡ host') × (port ≡ port') × (m ≡ m') × (h ≡ h')
post_args host m port h host' m' port' h' e = (cc, cc, cc, cc)

route_posts :
    (net : Network) (pod message : String) (headers : Headers) (host m : String) (port : ℕ)
    (h : Headers)
    → In (post host port m h) (route_message net pod message headers).1
    → (m ≡ message)
      × (h ≡ headers)
      × IsTarget net pod (route_message net pod message headers).1 host port
route_posts net pod message headers host m port h i = elim (Bool-cases net.local_mode) [
  | inl local ↦
      let trace = local_trace net pod message headers local in
      let (at, to, same_m, same_h) =
        post_args host m port h "127.0.0.1" message net.free_port headers (
          tunnel_posts net pod message headers host m port h
            (subst (In (post host port m h)) trace i)) in
      (
        same_m,
        same_h,
        inl (
          local,
          at,
          (
            (through_tunnel net net.kubectl message headers).1 ++ terminate_port_forward ∷ [],
            cc (trace, to),
          ),
        ),
      )
  | inr remote ↦ elim (remote_trace net pod message headers remote) [
    | inl silent ↦ absurd (ground arith)
    | inr (ip, r, one) ↦
        let (at, to, same_m, same_h) =
          post_args host m port h ip message agent_http_port headers (ground arith) in
        (same_m, same_h, inr (remote, to, subst (Reachable net pod) (sym at) r))
  ]
]

-- What `deliver` posts: the text as it is, without headers, to the pod that the status names.
abbrev pub Posts :
    Network → Status → (message : String) → List Effect → (host m : String) → ℕ → Headers → Type 0
Posts net status message trace host m port h =
    Runs (state_text status)
    × (m ≡ message)
    × (h ≡ [])
    × ((pod : String) × (get_text "podName" status ≡ some pod) × IsTarget net pod trace host port)

headers_none : auth_headers agent_auth_token ≡ []
unfolding auth_headers agent_auth_token
headers_none = refl

named_pod : (p : Option String) → is_truthy p ≡ true → p ≡ some (or_else p "")
named_pod none h = cc
named_pod (some pod) h = refl

deliver-Posts :
    (net : Network) (status : Status) (message host m : String) (port : ℕ) (h : Headers)
    → In (post host port m h) (deliver net status message).1
    → Posts net status message (deliver net status message).1 host m port h
unfolding deliver
deliver-Posts net status message host m port h i =
    let pod = or_else (get_text "podName" status) "" in
    let headers = auth_headers agent_auth_token in
    elim (Bool-cases (is_running (state_text status))) [
      | inr idle ↦ absurd (ground arith)
      | inl runs ↦ elim (Bool-cases (is_truthy (get_text "podName" status))) [
        | inr unnamed ↦ absurd (ground arith)
        | inl named ↦
            let same : (deliver net status message).1 ≡ (route_message net pod message headers).1 =
              ground arith in
            let (same_m, same_h, target) =
              route_posts net pod message headers host m port h
                (subst (In (post host port m h)) same i) in
            (
              (is_running_iff (state_text status)).0 runs,
              same_m,
              same_h ∙ headers_none,
              (
                pod,
                named_pod (get_text "podName" status) named,
                subst (λ xs. IsTarget net pod xs host port) (sym same) target,
              ),
            )
      ]
    ]

-- Every message that send_message posts is the text of the caller, without an Authorization
-- header, for a stored session whose live state is Idle or Busy, to the local end of a tunnel to
-- the pod that its status names, or to port 8081 at the address of that pod.
pub send_message-Posts :
    {o : Orm} (k8s : Cluster) (net : Network) (db : Db o) (id message host m : String) (port : ℕ)
    (h : Headers)
    → In (post host port m h) (send_message k8s net db id message).1
    → (a : Session) × (o.sessions.get db.sessions id ≡ some a)
      × Posts net
          (get_session_live_status k8s a.id)
          message
          (send_message k8s net db id message).1
          host
          m
          port
          h
unfolding send_message send_found
send_message-Posts {o} k8s net db id message host m port h i =
    elim (Option-cases (o.sessions.get db.sessions id)) [
      | inl absent ↦ absurd (ground arith)
      | inr (a, e) ↦
          let status = get_session_live_status k8s a.id in
          let found : (send_message k8s net db id message).1 ≡ (deliver net status message).1 =
            ground arith in
          (
            a,
            e,
            subst (λ xs. Posts net status message xs host m port h) (sym found)
                (deliver-Posts net status message host m port h
                  (subst (In (post host port m h)) found i)),
          )
    ]
