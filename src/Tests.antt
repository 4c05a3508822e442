-- ===== src/Tests.antt =====
-- The theorems at concrete inputs.
mod Database
mod Codec
mod Texts
mod Configuration
mod Migrations
mod Api
mod Instagram
mod Importer
mod Cluster
mod Lifecycle
mod Sessions
mod Requests
mod Resources
