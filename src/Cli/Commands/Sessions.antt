-- ===== src/Cli/Commands/Sessions.antt =====
-- src/mob/cli/commands/session.py.
use mob.Prelude.{
  ℕ, String, ◌==◌, ◌<>◌, not, ◌||◌, Option, none, some, List, [], ◌∷◌, ◌++◌, is_truthy, is_empty,
  or_else, if◌then◌else◌,
}
use mob.Backend.Routes.Values.{text}
use mob.Cli.Commands.{Command, send, Resolve, with_id, given, filter_of, request}

-- `_resolve_agent_filter` and what follows it
unfoldable pub with_agent :
    Resolve → (agent_ref domain_id : Option String) → (Option String → Command) → Command
unfolding with_id filter_of
with_agent resolve_ref none domain_id next = next none
with_agent resolve_ref (some String.[]) domain_id next = next none
with_agent resolve_ref (some (String.◌∷◌ c ref)) domain_id next =
    with_id (resolve_ref "agent" (String.◌∷◌ c ref) (filter_of "domain_id" domain_id))
      (λ agent_id. next (some agent_id))

unfoldable pub sessions : Resolve → (agent_ref domain_id state : Option String) → Command
unfolding with_agent given
sessions resolve_ref agent_ref domain_id state =
    with_agent resolve_ref agent_ref domain_id (λ agent_id.
      request "GET" "/sessions" [] (given "state" state (given "agent_id" agent_id [])))

-- A session by a reference, in the scope of an agent if one is given.
unfoldable pub with_session :
    Resolve → (ref : String) → (agent_ref domain_id : Option String) → (String → Command) → Command
unfolding with_agent with_id filter_of
with_session resolve_ref ref agent_ref domain_id next =
    with_agent resolve_ref agent_ref domain_id
      (λ agent_id. with_id (resolve_ref "session" ref (filter_of "agent_id" agent_id)) next)

module _ (resolve_ref : Resolve) (ref : String) (agent_ref domain_id : Option String) where
  unfoldable pub session_show : Command
  unfolding with_session
  session_show =
      with_session resolve_ref ref agent_ref domain_id
        (λ session_id. request "GET" ("/sessions/" <> session_id) [] [])

  unfoldable pub session_stop : Command
  unfolding with_session
  session_stop =
      with_session resolve_ref ref agent_ref domain_id
        (λ session_id. request "POST" ("/sessions/" <> session_id <> "/stop") [] [])

  unfoldable pub session_logs : (tail : ℕ) → Command
  unfolding with_session
  session_logs tail = with_session resolve_ref ref agent_ref domain_id (λ session_id. send (record {
    method = "GET";
    path = "/sessions/" <> session_id <> "/logs";
    body = [];
    params = [];
    tail = tail;
  }))

  unfoldable pub session_send : (message : String) → Command
  unfolding with_session
  session_send message = with_session resolve_ref ref agent_ref domain_id (λ session_id.
      request "POST" ("/sessions/" <> session_id <> "/send") (("message", text message) ∷ []) [])

-- `session attach`, given the session's state and pod: the arguments of kubectl.
abbrev agent_container_name : String
agent_container_name = "agent"

abbrev kubectl_config : Option String → List String
kubectl_config none = []
kubectl_config (some path) = if is_empty path then [] else "--kubeconfig" ∷ path ∷ []

abbrev or_shell : List String → List String
or_shell [] = "/bin/sh" ∷ []
or_shell (word ∷ words) = word ∷ words

unfoldable pub attach_args :
    (namespace : String) (kubeconfig : Option String) (state : String) (pod_name : Option String)
    (command : List String)
    → Option (List String)
attach_args namespace kubeconfig state pod_name command =
    if not (state == "idle" || state == "busy") || not (is_truthy pod_name)
    then none
    else some (
        ("kubectl"
          ∷ "exec"
          ∷ "-it"
          ∷ or_else pod_name ""
          ∷ "-n"
          ∷ namespace
          ∷ "-c"
          ∷ agent_container_name
          ∷ [])
        ++ kubectl_config kubeconfig
        ++ "--" ∷ or_shell command)
