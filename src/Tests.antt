-- ===== src/Tests.antt =====
-- Runs of the code at concrete inputs.
pub mod Toys
mod Crypto
mod Mail
mod Naming
mod Rows
mod Sessions
mod Hosts
mod Server
mod Api
mod Accounts
mod Arrival
mod Daemon
