-- ===== src/Db.antt =====
-- db/: the log storage. The interface, the in-memory implementation and the column types.
pub mod Types
pub mod Interface
pub mod Saves
pub mod Inmem
pub mod Nuts
pub mod Localdb
