-- ===== src/Syncer.antt =====
-- syncer/: the log store, and the writer to the target database.
pub mod Gob
pub mod Store
pub mod Columns
pub mod Schedule
pub mod Service
pub mod Target
pub mod Writer
pub mod Statements
