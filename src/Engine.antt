-- ===== src/Engine.antt =====
-- The files of engine/.
pub mod Serializes
pub mod Messages
pub mod InnerProtocol
pub mod IoEngine
pub mod NetEngine
mod Tests
