-- ===== src/Webhook.antt =====
-- src/mob/webhook: the gateway between messaging platforms and agent pods.
pub mod Calls
pub mod Telegram
pub mod Whatsapp
