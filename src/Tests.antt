-- ===== src/Tests.antt =====
-- Runs of the model at concrete inputs.
mod Outside
mod Data
mod Storage
mod Services
mod Serving
mod Ingest
mod Runs
mod Upgrades
mod Api
mod Signing
mod Contract
