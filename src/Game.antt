-- ===== src/Game.antt =====
-- src/modules/game: the rules, the rooms, and the socket gateway.
pub mod Engine
pub mod Room
pub mod Gateway
pub mod Results
pub mod Finalization
pub mod Tests
