-- ===== src/Token.antt =====
-- The token program, programs/token: its account types, and one module for each handler.
pub mod Core
pub mod Transfer
pub mod Mint
pub mod Burn
pub mod Create
pub mod SetAuthority
pub mod Outcome
pub mod Authority
pub mod Ledger
mod Examples
