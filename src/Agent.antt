-- ===== src/Agent.antt =====
-- src/mob/agent: the server inside an agent pod, and the tool of the Instagram integration.
pub mod Entrypoint
pub mod Exclusion
pub mod Instagram
