-- ===== src/Message.antt =====
-- The message classes: message/.
pub mod In
pub mod Out
pub mod Packet
pub mod Fields
pub mod Faults
pub mod Received
mod Tests
