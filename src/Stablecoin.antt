-- ===== src/Stablecoin.antt =====
-- The stablecoin: programs/stablecoin.
pub mod Core
pub mod Math
pub mod Collateralization
pub mod Signed
pub mod Controller
pub mod State
pub mod Checks
pub mod Globals
pub mod Positions
pub mod Admin
mod Examples
pub mod Runs
