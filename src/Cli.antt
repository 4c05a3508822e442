-- ===== src/Cli.antt =====
-- src/mob/cli: how the command line speaks to the services (client.py), how it reads a reference to a
-- resource (resolver.py), the requests that its commands send, what they do with the environments of
-- the configuration, and the parser of SKILL.md (skill_importer.py).
pub mod Client
pub mod Commands
pub mod Environments
pub mod Importer
pub mod Resolver
