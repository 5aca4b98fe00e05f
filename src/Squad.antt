-- ===== src/Squad.antt =====
-- src/modules/squad: the stored squads with their service, and the game queue of a squad.
pub mod Store
pub mod Service
pub mod Listing
pub mod Hill
pub mod Gateway
mod Tests
