-- ===== src/Tests.antt =====
-- Runs of the model at concrete inputs.
mod Data
mod Endpoint
mod Tables
mod Formats
mod Clients
mod Compat
mod Accounts
mod Pages
