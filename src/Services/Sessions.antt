-- ===== src/Services/Sessions.antt =====
-- src/mob/services/sessions.py, in parts: the state tables, the live view of the custom resources,
-- the control operations, the environment of a pod, creation and messages.
pub mod States
pub mod Live
pub mod Control
pub mod Env
pub mod Create
pub mod Send
pub mod Lifecycle
pub mod Views
pub mod Effects
pub mod Posting
pub mod Traffic
pub mod Delivery
pub mod Creation
pub mod Layers
pub mod Listing
