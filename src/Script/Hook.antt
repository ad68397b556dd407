-- ===== src/Script/Hook.antt =====
-- The hooks of script/hook/ and hook/.
pub mod Translation
pub mod Calls
pub mod Suite
