-- ===== src/Service.antt =====
-- internal/service: register, login, refresh, logout and me, over the repositories, the password
-- functions and a token signer.
pub mod Calls
pub mod Atomic
pub mod Interleaving
pub mod Ledger
pub mod Config
pub mod History
pub mod Register
pub mod Login
pub mod Refresh
pub mod Logout
pub mod Me
