-- ===== src/Api.antt =====
-- src/mob/api and src/mob/schemas.py: the HTTP API, from a request over the bodies' validation to the
-- service that it calls and the status that it answers.
pub mod Slug
pub mod Schemas
pub mod Routes
pub mod Shared
pub mod Agreement
pub mod Serving
