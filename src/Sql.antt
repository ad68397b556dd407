-- ===== src/Sql.antt =====
-- The parts under sql/.
pub mod Pool
pub mod Mysql
pub mod Connection
pub mod Errors
