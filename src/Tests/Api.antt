-- ===== src/Tests/Api.antt =====
-- Slugs, requests of the API and of the command line.
use mob.Prelude.{◌≡◌, refl, ◌↔◌, true, update, put, none, some, if◌then◌else◌, [], ◌∷◌}
use mob.Api.Schemas.{call}
use mob.Backend.{Request}
use mob.Api.Slug.{is_slug, codes, MatchesSlug, is_slug_iff}
use mob.Cli.Client.{Url}
use mob.Cli.Resolver.{found}
use mob.Cli.Commands.{Resolve, Sent, send}
use mob.Cli.Commands.Agents.{agent_run_cmd, agent_delete}
use mob.Cli.Commands.Paths.{is_plain, is_id_within}
use mob.Cli.Commands.Reach.{delete, agent, command_of-endpoint}
use mob.Cli.Commands.Overrides.{endpoint_of, is_key, agent_run_cmd-endpoint}

is_slug_iff_example : (is_slug "a-1" ≡ true) ↔ MatchesSlug (codes "a-1")
is_slug_iff_example = is_slug_iff "a-1"

-- A client and a server that take every path without a character of URLs as it is written, and
-- refuse the others.
abbrev plain_url : Url
plain_url path params tail = if is_plain path then some (path, params, tail) else none

abbrev resolve_ref : Resolve
resolve_ref resource_type ref filters = found "a1"

agent_run_cmd-endpoint_example :
    (s : Sent) × (agent_run_cmd resolve_ref "robot" none none (some "run-1") ("A=x=y" ∷ "B=" ∷ [])
      ≡ send s)
    × (endpoint_of s
        ≡ call (
            Request.create_session "a1" none (some "run-1") (some (("A", "x=y") ∷ ("B", "") ∷ []))))
unfolding is_key update is_slug put
agent_run_cmd-endpoint_example =
    agent_run_cmd-endpoint resolve_ref "robot" "a1" none none (some "run-1")
      (("A", "x=y") ∷ ("B", "") ∷ []) refl refl (refl, (refl, tt))

command_of-endpoint_example :
    (s : Sent) × (agent_delete resolve_ref "robot" (some "d1") ≡ send s)
    × (endpoint_of s ≡ call (Request.delete_agent "a1"))
unfolding is_id_within
command_of-endpoint_example =
    command_of-endpoint delete agent resolve_ref "robot" "a1" (some "d1") refl refl refl
