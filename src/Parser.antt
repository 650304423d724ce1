-- ===== src/Parser.antt =====
-- mysql/parser/: from the rows of the binlog to structs.
pub mod Tags
pub mod Cells
pub mod Sets
pub mod Fields
pub mod Rows
pub mod Wrapper
