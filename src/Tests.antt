-- ===== src/Tests.antt =====
-- Runs on concrete inputs, and instances of the theorems.
mod Sessions
mod Secrets
mod Logins
mod Refreshes
mod Replays
mod Accounts
mod Requests
mod Directories
mod Races
mod Interleavings
mod OneToken
mod Bearer
mod Launch
mod Ledgers
mod Endings
mod Programs
