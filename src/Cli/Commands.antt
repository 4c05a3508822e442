-- ===== src/Cli/Commands.antt =====
-- src/mob/cli/commands: the request that a command sends. References are resolved by a parameter,
-- `resolve_ref` of src/mob/cli/resolver.py; what a command prints is left out.
pub mod Agents
pub mod Overrides
pub mod Paths
pub mod Reach
pub mod Resources
pub mod Sessions
pub mod Skills
use mob.Prelude.{ℕ, String, ◌==◌, code, Option, none, some, List, [], ◌∷◌, Assoc, put}
use mob.Backend.Routes.Values.{Data, text}
use mob.Cli.Resolver.{Resolution, found}

-- The arguments of `api_get`, `api_post`, `api_put` and `api_delete`; `tail` is the parameter of
-- that name, which is the only number.
pub record Sent : Type 0 where
  pub method : String
  pub path : String
  pub body : Data
  pub params : Data
  pub tail : ℕ

-- A command sends its request, or ends with a ClickException of its own or of a reference, or with
-- another exception.
pub data Command : Type 0 where
  send : Sent → Command
  unresolved : Resolution → Command
  usage_error : Command
  crashed : Command

abbrev pub Resolve : Type 0
Resolve = (resource_type ref : String) (filters : Assoc String) → Resolution

-- What follows `resolve_ref`
unfoldable pub with_id : Resolution → (String → Command) → Command
with_id (found id) next = next id
with_id failure next = unresolved failure

-- `if value: payload[key] = value`
unfoldable pub given : String → Option String → Data → Data
unfolding put
given key none payload = payload
given key (some String.[]) payload = payload
given key (some (String.◌∷◌ c s)) payload = put key (text (String.◌∷◌ c s)) payload

-- `{k: v for k, v in filters.items() if v is not None}` for one filter
unfoldable pub filter_of : String → Option String → Assoc String
filter_of key none = []
filter_of key (some v) = (key, v) ∷ []

abbrev pub request : (method path : String) (body params : Data) → Command
request method path body params =
    send (record { method = method; path = path; body = body; params = params; tail = 100 })
