-- ===== src/Protocol.antt =====
-- The parts under protocol/.
pub mod Connection
pub mod Standard
pub mod Login
mod Tests
