-- ===== src/Amm.antt =====
-- The constant-product market maker, programs/amm.
pub mod Core
pub mod Math
pub mod Pda
pub mod Accounts
pub mod Swap
pub mod Liquidity
pub mod Admin
mod Fixture
mod Examples
