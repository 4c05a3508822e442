-- ===== src/Lib.antt =====
-- mob runs agents as pods of a Kubernetes cluster. An organization owns domains and groups, a
-- domain owns agents, an agent has skills and tasks, and a session is one run of an agent in a pod.
-- The command line speaks to services over a database, either over HTTP or, in local mode,
-- directly.
--
-- The parts and their files, with paths from the root of the repository:
--
-- Models, Models/Clash: the mapped classes of src/mob/models and their unique constraints.
--
-- Orm, Orm/Mapped, Orm/Memory: what the services use of SQLAlchemy. `Rows` is the interface of one
-- mapped class (get, select, add, update, delete and their documented laws), `Orm` one instance for
-- each class, `Db` the database. Memory is an instance by lists, at which the examples run.
--
-- Transaction: one request's unit of work, as state passing over the saved and the current
-- database; `ServiceError` of src/mob/services/__init__.py and the exceptions of the database are
-- values. The flush that commits and queries make is merged into `insert` and `assign`. Atomic and
-- Keeps are predicates on such programs, with rules that proofs search.
--
-- Services: src/mob/services, one file for one service, each function under its name. Cascade
-- follows the relationships with `cascade="all, delete-orphan"`; below it, deletions are compared
-- with functions of the database. Services/Sessions is sessions.py: States (the tables over
-- states), Live (the live state from the cluster, listing, reading, logs), Control (stop and
-- update), Env (the environment of a pod), Create and Send; the other files beside them hold
-- proofs, with the state machine in Lifecycle/Machine.
--
-- Backend, Backend/Routes: src/mob/cli/local_backend.py, from a method and a path to a request and
-- from a request to the service that it calls.
--
-- Api: the HTTP API. Slug and Schemas are the bodies of requests in src/mob/schemas.py with their
-- constraints, Routes the routers of src/mob/api/routes with the prefixes of src/mob/api/app.py,
-- Serving the answers and their statuses, Shared and Agreement the requests that the API and local
-- mode share.
--
-- Agent/Entrypoint: src/mob/agent/entrypoint.py, the server in a pod. A handler runs from one
-- `await` to the next; each piece is an event, and a schedule is any list of events.
--
-- Agent/Instagram: src/mob/agent/integrations/instagram.py, the tool that posts, with its requests
-- as effects.
--
-- Webhook: src/mob/webhook/gateway.py, the Telegram and the WhatsApp handlers over JSON values.
--
-- Cli/Client: src/mob/cli/client.py, a request of the command line in both modes. Cli/Resolver:
-- src/mob/cli/resolver.py, references on the command line. Cli/Environments: the commands of
-- src/mob/cli/commands/env_cmd.py and init_cmd.py on the configuration, from the dictionary that is
-- loaded to the one that is saved. Cli/Commands: the request that a command on agents, sessions,
-- organizations, users, domains, groups or skills sends, with Overrides, Paths and Reach on how the
-- API reads it. Cli/Importer: src/mob/cli/skill_importer.py, the parser of SKILL.md.
--
-- Json: JSON values and what Python does with them. Config: src/mob/config.py, the configuration
-- file and its values by dotted keys.
--
-- Database: src/mob/database.py, the migrations over a connection; Database/Engines, the engine and
-- the session factory of the process.
--
-- Tests: the theorems at concrete inputs.
--
-- Parameters of the model: the answers of Kubernetes (`Cluster`, `Creator`), of HTTP and of the
-- port-forward (`Network`), of the LLM and of the agent, the draws of `generate_uuid` and
-- `secrets.token_hex`, the JSON codec of three columns (`Json`, with its round trip as a law),
-- `str.upper`, HMAC and the JSON parser of the webhook, the codec of the configuration file
-- (`JsonText`, with its round trip as a law), the YAML parser of a skill's front matter, the
-- answers to prompts (`Answers`), the database's schema (`Connection`, with the documented laws of
-- its statements), the URLs that httpx makes and the server reads (`Url`), the verdict of pydantic
-- on an answer (`converts` of `World`), and FastAPI, pydantic and httpx otherwise, which are taken
-- by their documented behaviour, and the answers of the Graph API (`Graph`). The mode of a delivery
-- and the process of kubectl are fields of `Network`. Every function ends by structural recursion;
-- the only bound is the number of polls of the source, six.
--
-- Left out: time stamps and the order of listings, the lengths of columns, the foreign keys of the
-- database and their `ondelete` clauses, logging, the settings of pydantic, the rows that a
-- migration fills, and everything of the repository that is not named above: the other commands and
-- what commands print, the Kubernetes manager, the adapters and the other integrations, the
-- operator in Rust, and the manifests of agents. What `get_session` and `list_sessions` assign to
-- rows is never committed, so they save nothing. In the routes of local mode, a value of another
-- type than the service declares is followed no further. The statements of a migration are taken to
-- succeed, which the backfill of a table without the column id does not. The resolver takes ASCII
-- digits only, and its errors are cases without their wording.
mod Prelude
pub mod Json
pub mod Models
pub mod Orm
pub mod Transaction
pub mod Services
pub mod Backend
pub mod Api
pub mod Agent
pub mod Webhook
pub mod Config
pub mod Cli
pub mod Database
mod Tests
