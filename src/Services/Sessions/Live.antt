-- ===== src/Services/Sessions/Live.antt =====
-- src/mob/services/sessions.py, the live state of sessions in Kubernetes: the batch and the single
-- read of the custom resources, the enrichment of database rows, listing, reading and logs.
use mob.Prelude.{
  String, ◌<>◌, ℕ, zero, suc, Bool, true, false, ◌&&◌, Option, none, some, List, [], ◌∷◌, map,
  Assoc, lookup, update, filter, is_truthy, if◌then◌else◌, or_else,
}
use mob.Models.{SessionState, failed, Session}
use mob.Orm.{Orm}
use mob.Transaction.{
  Error, service_error, Service, sessions, pure, raise, require, find, select, ◌>>=◌,
}
use mob.Services.Domains.{scoped}
use mob.Services.Sessions.States.{cr_state_to_db_state, is_terminal, session_state, same_state}

-- The `status` of a custom resource; a value of `none` is a JSON null.
abbrev pub Status : Type 0
Status = Assoc (Option String)

-- `status.get(key)`
unfoldable pub get_text : String → Status → Option String
unfolding lookup
get_text key status = or_else (lookup key status) none

-- What the Kubernetes API answers while one request is served. `client` tells whether a client
-- can be built; the answer `none` is an exception.
pub record Cluster : Type 0 where
  pub client : Bool
  -- `list_namespaced_custom_object(...)["items"]`: names and statuses
  pub list_resources : Option (List (String × Option Status))
  -- `get_namespaced_custom_object(name)["status"]`
  pub get_resource : String → Option (Option Status)
  -- `read_namespaced_pod_log(name, tail_lines)`, in lines
  pub read_log : String → ℕ → Option (List String)

-- `s[:n]`
unfoldable pub take_chars : ℕ → String → String
take_chars zero s = ""
take_chars (suc n) String.[] = ""
take_chars (suc n) (String.◌∷◌ c s) = String.◌∷◌ c (take_chars n s)

-- `f"s-{str(id)[:8]}"`
unfoldable pub cr_name : String → String
unfolding take_chars
cr_name id = "s-" <> take_chars 8 id

abbrev pub item_status : String × Option Status → String × Status
item_status (name, status) = (name, or_else status [])

-- `_list_cr_statuses_sync`
unfoldable pub list_cr_statuses : Cluster → Option (Assoc Status)
unfolding update
list_cr_statuses k8s = elim k8s.client [
  | false ↦ none
  | true ↦ elim k8s.list_resources [
    | none ↦ none
    | some items ↦ some (update [] (map item_status items))
  ]
]

-- The three assignments that both readers make from a status.
unfoldable pub merge_status : Status → Session → Session
unfolding get_text cr_state_to_db_state
merge_status status sess =
    let state = get_text "state" status in
    let pod = get_text "podName" status in
    let message = get_text "errorMessage" status in
    record sess {
      state = or_else (cr_state_to_db_state (or_else state "")) sess.state;
      pod_name = if is_truthy pod then pod else sess.pod_name;
      error_message = if is_truthy message then message else sess.error_message;
    }

abbrev pub lost : Session → Session
lost sess = record sess { state = failed; error_message = some "CR not found" }

-- The body of the loop of `_enrich_sessions_with_live_state` for a session that is not terminal. An
-- empty status is falsy, as a missing one is.
unfoldable pub apply_status : Option Status → Session → Session
apply_status none sess = lost sess
apply_status (some []) sess = lost sess
apply_status (some (kv ∷ status)) sess = merge_status (kv ∷ status) sess

unfoldable pub enrich_session : Assoc Status → Session → Session
enrich_session statuses sess =
    if is_terminal sess.state then sess else apply_status (lookup (cr_name sess.id) statuses) sess

-- `_enrich_sessions_with_live_state`
unfoldable pub enrich_sessions : List Session → Option (Assoc Status) → List Session
enrich_sessions rows none = rows
enrich_sessions rows (some statuses) = map (enrich_session statuses) rows

pub data Filter : Type 0 where
  everything : Filter
  only : SessionState → Filter
  invalid : String → Filter

-- `if state: try: SessionState(state)`
unfoldable pub state_filter : Option String → Filter
unfolding session_state
state_filter none = everything
state_filter (some String.[]) = everything
state_filter (some (String.◌∷◌ c s)) = elim (session_state (String.◌∷◌ c s)) [
  | none ↦ invalid (String.◌∷◌ c s)
  | some state ↦ only state
]

-- `[s for s in sessions if s.state == state_filter]`
unfoldable pub apply_filter : Filter → List Session → List Session
apply_filter (only state) rows = filter (λ s. same_state s.state state) rows
apply_filter _ rows = rows

module _ {o : Orm} (k8s : Cluster) where
  unfoldable pub list_filtered : Filter → Option String → Service o (List Session)
  list_filtered (invalid state) agent_id =
      raise (service_error ("Invalid state filter: " <> state) 400)
  list_filtered f agent_id = do
    rows ← select sessions (scoped agent_id (λ r. r.agent_id))
    pure (apply_filter f (enrich_sessions rows (list_cr_statuses k8s)))

  unfoldable pub list_sessions : (agent_id state : Option String) → Service o (List Session)
  unfolding list_filtered
  list_sessions agent_id state = list_filtered (state_filter state) agent_id

abbrev pub not_found : Error
not_found = service_error "Session not found" 404

-- The three answers of `_get_single_cr_status_sync`: `None`, `_CR_NOT_FOUND`, a status.
pub data Probe : Type 0 where
  unavailable missing : Probe
  live : Status → Probe

abbrev probe_of : Option (Option Status) → Probe
probe_of none = missing
probe_of (some none) = live []
probe_of (some (some status)) = live status

unfoldable pub get_single_cr_status : Cluster → String → Probe
unfolding cr_name
get_single_cr_status k8s session_id =
    if k8s.client then probe_of (k8s.get_resource (cr_name session_id)) else unavailable

unfoldable pub apply_probe : Probe → Session → Session
apply_probe unavailable sess = sess
apply_probe missing sess = lost sess
apply_probe (live []) sess = sess
apply_probe (live (kv ∷ status)) sess = merge_status (kv ∷ status) sess

-- The row that `get_session` answers with.
unfoldable pub live_view : Cluster → Session → Session
live_view k8s sess =
    if is_terminal sess.state then sess else apply_probe (get_single_cr_status k8s sess.id) sess

-- The assignments to the row are not committed: the saved row keeps its columns.
unfoldable pub get_session : {o : Orm} → Cluster → String → Service o Session
get_session k8s session_id = do
  found ← find sessions session_id
  sess ← require not_found found
  pure (live_view k8s sess)

abbrev status_or_empty : Option (Option Status) → Status
status_or_empty none = []
status_or_empty (some none) = []
status_or_empty (some (some status)) = status

-- `get_session_live_status`
unfoldable pub get_session_live_status : Cluster → String → Status
unfolding cr_name
get_session_live_status k8s session_id =
    if k8s.client then status_or_empty (k8s.get_resource (cr_name session_id)) else []

-- `_get_pod_logs_sync`
unfoldable pub get_pod_logs : Cluster → Option String → ℕ → List String
get_pod_logs k8s pod tail =
    if k8s.client && is_truthy pod then or_else (k8s.read_log (or_else pod "") tail) [] else []

-- `get_session_logs`: the logs and the status
unfoldable pub get_session_logs : Cluster → String → ℕ → List String × Status
unfolding get_session_live_status get_pod_logs get_text
get_session_logs k8s session_id tail =
    let status = get_session_live_status k8s session_id in
    (get_pod_logs k8s (get_text "podName" status) tail, status)
