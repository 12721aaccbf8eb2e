-- ===== src/Twap.antt =====
-- The time-weighted average price oracle of programs/twap_oracle.
pub mod Core
pub mod Root
pub mod Feed
pub mod Handlers
pub mod Source
mod Examples
