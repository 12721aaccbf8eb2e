-- ===== src/Stablecoin/Positions.antt =====
-- The instructions on positions: programs/stablecoin/src/open_position.rs, deposit_collateral.rs,
-- withdraw_collateral.rs, generate_debt.rs, repay_debt.rs and close_position.rs.
pub mod Debt
pub mod Collateral
pub mod Lifecycle
pub mod Backing
pub mod Circulation
pub mod Security
pub mod Withdrawals
pub mod Freezing
