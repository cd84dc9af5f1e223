-- ===== src/Webhook.antt =====
-- The GitHub webhook route of scripts/wrapper-github-webhook-verify.mjs.
pub mod Host
pub mod Delivery
pub mod Config
pub mod Signature
pub mod Body
pub mod Allowlist
pub mod Forward
pub mod Handler
pub mod Server
