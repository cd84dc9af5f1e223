-- ===== src/Tests.antt =====
-- Runs of the model on concrete inputs, and the theorems at inputs where their hypotheses hold.
pub mod Fake
mod Client
mod Instance
mod Proof
mod Provision
mod EnvFile
mod Applier
mod Guard
mod Webhook
mod Cli
mod StateExport
