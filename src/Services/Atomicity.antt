-- ===== src/Services/Atomicity.antt =====
-- Services that raise, and the saved database: module by module.
pub mod Cascades
pub mod Organizations
pub mod Domains
pub mod Users
pub mod Groups
pub mod Agents
pub mod Skills
pub mod Tasks
pub mod Sessions
