-- ===== src/Script.antt =====
-- The scripts: what C++ reads of Lua, the hooks that scripts implement, and the adapters.
pub mod Lua
pub mod Hook
pub mod Adapters
mod SmallLua
mod Tests
