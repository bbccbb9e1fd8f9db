-- ===== src/Db.antt =====
-- The database layer of libs/modern_cppdb.
pub mod ConnectionString
pub mod Mysql
pub mod Pool
pub mod Query
