-- ===== src/Friend.antt =====
-- src/modules/friend: who is online, the rows of friendships, and the service.
pub mod Online
pub mod Friendships
pub mod Service
mod Tests
