-- ===== src/Tests/Sessions.antt =====
-- Creating, reading and messaging sessions on the database and the cluster of the examples.
use mob.Prelude.{
  ◌<>◌, ◌==◌, ◌&&◌, not, is_empty, String, ◌≡◌, refl, ◌↔◌, Option, none, some, [], ◌∷◌, In, Assoc,
  lookup, update, or_else, put, inl, inr,
}
use mob.Models.{Session}
use mob.Orm.Memory.{get, live, without, is_refused, update as write, add, add_to}
use mob.Transaction.{ok, run, ◌>>=◌, select, pure}
use mob.Services.Json.{Dict}
use mob.Services.Agents.{AgentData, new_agent}
use mob.Services.Sessions.Env.{build_env_vars}
use mob.Services.Sessions.Layers.{newest, lookup-build_env_vars}
use mob.Services.Sessions.Create.{SessionData, create_session, new_session, session_name}
use mob.Services.Sessions.Creation.{create-saves, IsSaved}
use mob.Services.Sessions.States.{session_state, cr_state_to_db_state}
use mob.Services.Sessions.Live.{
  list_filtered, apply_status, merge_status, get_text, apply_filter, Status, cr_name, take_chars,
  list_sessions, state_filter, enrich_session, enrich_sessions, live_view, list_cr_statuses,
  get_session_live_status,
}
use mob.Services.Sessions.Listing.{Listed, list_sessions_iff}
use mob.Services.Sessions.Views.{enrich_session-eq-live_view}
use mob.Services.Sessions.Send.{
  terminate, post_local, agent_auth_token, auth_headers, send_message, send_found, deliver,
  route_message, send_via_port_forward, through_tunnel,
}
use mob.Services.Sessions.Delivery.{Delivers, send_message_iff}
use mob.Services.Sessions.Posting.{Posts, send_message-Posts}
use mob.Services.Sessions.Traffic.{Closes, send_message-Closes}
use mob.Tests.Database.{in_memory, stored, live_session, robot}
use mob.Tests.Codec.{codec}
use mob.Tests.Cluster.{cluster, tunnel, reply, creator, request, idle_status}

abbrev keep : String → String
keep s = s

abbrev named : SessionData
named = record request { name = some "live" }

create-saves_example :
    IsSaved
      (new_session robot request)
      (run (create_session codec keep creator "Expecting value" request) stored).1
unfolding get add add_to write is_refused live without new_session session_name
create-saves_example =
    create-saves codec keep creator "Expecting value" request stored robot
      (new_session robot request ∷ stored.sessions) refl refl

abbrev fields : AgentData
fields = record {
  system_prompt = none;
  model_endpoint = none;
  env_defaults = some (("LEVEL", "info") ∷ ("EMPTY", "") ∷ []);
  custom_config = some (("TONE", "dry") ∷ []);
  resource_cpu_limit = none;
  resource_memory_limit = none;
  skill_ids = none;
}

abbrev overrides : Option Dict
overrides = some (("LEVEL", "debug") ∷ [])

lookup-build_env_vars_example :
    (vars : Option Dict) × (build_env_vars codec keep
        (new_agent codec "a2" "robot" "base" "d1" fields)
        overrides
      ≡ some vars)
    × ((k : String)
        → lookup k (or_else vars [])
          ≡ newest
              (λ name value. name == k)
              (or_else overrides [])
              (newest
                (λ name value. ("AGENT_CUSTOM_" <> keep name) == k)
                (or_else fields.custom_config [])
                (newest
                  (λ name value. not (is_empty value) && name == k)
                  (or_else fields.env_defaults [])
                  none)))
lookup-build_env_vars_example =
    lookup-build_env_vars codec keep "a2" "robot" "base" "d1" fields overrides

-- The live session with the pod that the cluster names.
abbrev shown_session : Session
shown_session = record live_session { pod_name = some "pod-2" }

list_sessions_iff_example :
    In shown_session (shown_session ∷ [])
    ↔ Listed cluster stored (some "a1") (state_filter (some "idle")) shown_session
unfolding list_sessions list_filtered state_filter session_state run ◌>>=◌ select pure live without
    get list_cr_statuses update lookup enrich_sessions enrich_session apply_status merge_status
    get_text cr_state_to_db_state cr_name take_chars apply_filter put
list_sessions_iff_example =
    list_sessions_iff cluster stored (some "a1") (some "idle") (shown_session ∷ []) refl
      shown_session

abbrev statuses : Assoc Status
statuses = ("s-s2", idle_status) ∷ []

enrich_session-eq-live_view_example :
    enrich_session statuses live_session ≡ live_view cluster live_session
unfolding cr_name take_chars lookup
enrich_session-eq-live_view_example =
    enrich_session-eq-live_view cluster statuses live_session ("state", some "Idle")
      (("podName", some "pod-2") ∷ []) refl refl refl

send_message_iff_example :
    ((send_message {o = in_memory} cluster tunnel stored "s2" "hi").0 ≡ ok reply) ↔ (
      (a : Session) × (in_memory.sessions.get stored.sessions "s2" ≡ some a)
      × Delivers tunnel (get_session_live_status cluster a.id) reply)
send_message_iff_example = send_message_iff cluster tunnel stored "s2" "hi" reply

send_message-Posts_example :
    (a : Session) × (in_memory.sessions.get stored.sessions "s2" ≡ some a)
    × Posts tunnel
        (get_session_live_status cluster a.id)
        "hi"
        (send_message {o = in_memory} cluster tunnel stored "s2" "hi").1
        "127.0.0.1"
        "hi"
        40000
        []
unfolding send_message send_found get deliver get_session_live_status get_text lookup cr_name
    take_chars route_message send_via_port_forward through_tunnel post_local auth_headers
    agent_auth_token terminate
send_message-Posts_example =
    send_message-Posts cluster tunnel stored "s2" "hi" "127.0.0.1" "hi" 40000 [] (inr (inl refl))

send_message-Closes_example :
    Closes "pod-2" 40000 (send_message {o = in_memory} cluster tunnel stored "s2" "hi").1
unfolding send_message send_found get deliver get_session_live_status get_text lookup cr_name
    take_chars route_message send_via_port_forward through_tunnel post_local auth_headers
    agent_auth_token terminate
send_message-Closes_example =
    send_message-Closes cluster tunnel stored "s2" "hi" "pod-2" 40000 (inl refl)
