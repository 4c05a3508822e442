-- ===== src/Services.antt =====
-- src/mob/services: the business logic that the API and the CLI share, a module per file there.
pub mod Json
pub mod Cascade
pub mod Organizations
pub mod Domains
pub mod Users
pub mod Groups
pub mod Skills
pub mod Tasks
pub mod Sessions
pub mod Atomicity
pub mod Agents
