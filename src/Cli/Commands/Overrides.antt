-- ===== src/Cli/Commands/Overrides.antt =====
-- `mob agent run` (src/mob/cli/commands/agent.py) against POST /sessions of the API.
use package.text.Mathlib.TextLemmas.{nil-append, cons-append}
use mob.Prelude.{
  String, Char, code, ◌<>◌, ◌≡◌, refl, ap, ◌∙◌, Bool, true, false, not, ◌&&◌, Option, none, some,
  [], ◌∷◌, map, Assoc, put, update, nat_eq, arith,
}
use mob.Backend.{Request}
use mob.Backend.Routes.Values.{Data, text, dict}
use mob.Api.Schemas.{
  Endpoint, call, slug_to, session_create, text_field, optional_field, dict_field,
}
use mob.Api.Routes.{endpoint}
use mob.Cli.Resolver.{found}
use mob.Cli.Commands.{given, Sent, send, Resolve, with_id, filter_of}
use mob.Cli.Commands.Agents.{
  split_once, overrides, env_payload, run_payload, send_run, agent_run_cmd,
}

-- `KEY=VALUE`
abbrev pub rendered : String × String → String
rendered (k, v) = k <> String.◌∷◌ "=" v

-- No "=" in a key
unfoldable pub is_key : String → Bool
is_key String.[] = true
is_key (String.◌∷◌ c k) = not (nat_eq (code c) b'=') && is_key k

abbrev pub AreKeys : Assoc String → Type 0
AreKeys [] = Unit
AreKeys ((k, v) ∷ env) = (is_key k ≡ true) × AreKeys env

split_once-cons :
    (c : Char) (s k v : String)
    → nat_eq (code c) b'=' ≡ false
    → split_once s ≡ some (k, v)
    → split_once (String.◌∷◌ c s) ≡ some (String.◌∷◌ c k, v)
unfolding split_once
split_once-cons c s k v other rest = rw (other, rest) refl

split_once-rendered : (k v : String) → is_key k ≡ true → split_once (rendered (k, v)) ≡ some (k, v)
unfolding is_key
split_once-rendered String.[] v h =
    ap split_once (nil-append (String.◌∷◌ "=" v)) ∙ (unfold split_once in refl)
split_once-rendered (String.◌∷◌ c k) v h =
    ap split_once (cons-append c k (String.◌∷◌ "=" v))
    ∙ split_once-cons c (rendered (k, v)) k v (ground arith)
        (split_once-rendered k v (ground arith))

overrides-rendered :
    (env d : Assoc String) → AreKeys env → overrides (map rendered env) d ≡ some (update d env)
unfolding overrides update
overrides-rendered [] d h = refl
overrides-rendered ((k, v) ∷ env) d (key, keys) =
    rw (split_once-rendered k v key) (overrides-rendered env (put k v d) keys)

-- What `if value:` lets through
abbrev pub filled : Option String → Option String
filled (some (String.◌∷◌ c s)) = some (String.◌∷◌ c s)
filled _ = none

-- The dictionary of `--env`, if there is one.
abbrev pub env_of : Assoc String → Option (Assoc String)
env_of [] = none
env_of (e ∷ env) = some (update [] (e ∷ env))

abbrev pub is_name : Option String → Bool
is_name none = true
is_name (some s) = slug_to 255 s

abbrev with_env : Option (Assoc String) → Data → Data
with_env none payload = payload
with_env (some d) payload = put "env_overrides" (dict d) payload

abbrev with_text : String → Option String → Data → Data
with_text key none payload = payload
with_text key (some s) payload = put key (text s) payload

given-filled :
    (key : String) (o : Option String) (payload : Data)
    → given key o payload ≡ with_text key (filled o) payload
unfolding given
given-filled key none payload = refl
given-filled key (some String.[]) payload = refl
given-filled key (some (String.◌∷◌ c s)) payload = refl

env_payload-rendered :
    (env : Assoc String) (payload : Data)
    → AreKeys env
    → env_payload (map rendered env) payload ≡ some (with_env (env_of env) payload)
unfolding env_payload
env_payload-rendered [] payload h = refl
env_payload-rendered (e ∷ env) payload h = rw (overrides-rendered (e ∷ env) [] h) refl

abbrev body_of : (agent_id : String) → (task_id name : Option String) → Option (Assoc String) → Data
body_of agent_id task_id name env =
    with_env env
      (with_text "name" name (with_text "task_id" task_id (("agent_id", text agent_id) ∷ [])))

endpoint-body_of :
    (agent_id : String) (task_id name : Option String) (env : Option (Assoc String))
    → is_name name ≡ true
    → endpoint "POST" (body_of agent_id task_id name env) [] 100 "/sessions"
      ≡ call (Request.create_session agent_id task_id name env)
unfolding endpoint put session_create text_field optional_field dict_field
endpoint-body_of agent_id none none none h = refl
endpoint-body_of agent_id none none (some d) h = refl
endpoint-body_of agent_id (some t) none none h = refl
endpoint-body_of agent_id (some t) none (some d) h = refl
endpoint-body_of agent_id none (some n) none h = rw (h) refl
endpoint-body_of agent_id none (some n) (some d) h = rw (h) refl
endpoint-body_of agent_id (some t) (some n) none h = rw (h) refl
endpoint-body_of agent_id (some t) (some n) (some d) h = rw (h) refl

run_payload-rendered :
    (agent_id : String) (task_id run_name : Option String) (env : Assoc String)
    → AreKeys env
    → run_payload agent_id task_id run_name (map rendered env)
      ≡ some (body_of agent_id (filled task_id) (filled run_name) (env_of env))
unfolding run_payload
run_payload-rendered agent_id task_id run_name env keys =
    let base : Data = ("agent_id", text agent_id) ∷ [] in
    env_payload-rendered env _ keys
    ∙ ap (λ d. some (with_env (env_of env) d))
        (given-filled "name" run_name _
          ∙ ap (with_text "name" (filled run_name)) (given-filled "task_id" task_id base))

-- A request of the command line, as the API reads it.
abbrev pub endpoint_of : Sent → Endpoint
endpoint_of s = endpoint s.method s.body s.params s.tail s.path

-- If the reference resolves to an agent, the name, if one is given, is a slug of at most 255
-- characters, and no key holds an equals sign, then mob agent run with KEY=VALUE items sends a
-- request that the API reads as the creation of a session of that agent with the dictionary of
-- the items.
pub agent_run_cmd-endpoint :
    (resolve_ref : Resolve) (ref agent_id : String) (domain_id task_id run_name : Option String)
    (env : Assoc String)
    → resolve_ref "agent" ref (filter_of "domain_id" domain_id) ≡ found agent_id
    → is_name (filled run_name) ≡ true
    → AreKeys env
    → (s : Sent) × (agent_run_cmd resolve_ref ref domain_id task_id run_name (map rendered env)
        ≡ send s)
      × (endpoint_of s
          ≡ call (Request.create_session agent_id (filled task_id) (filled run_name) (env_of env)))
unfolding agent_run_cmd with_id send_run
agent_run_cmd-endpoint resolve_ref ref agent_id domain_id task_id run_name env resolved named keys =
    let payload = body_of agent_id (filled task_id) (filled run_name) (env_of env) in
    (
      record { method = "POST"; path = "/sessions"; body = payload; params = []; tail = 100 },
      rw (resolved) (ap send_run (run_payload-rendered agent_id task_id run_name env keys)),
      endpoint-body_of agent_id (filled task_id) (filled run_name) (env_of env) named,
    )
