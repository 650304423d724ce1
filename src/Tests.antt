-- ===== src/Tests.antt =====
-- Concrete parameters and data, and the theorems at them.
pub mod Fixtures
pub mod Packages
mod Log
mod Scans
pub mod Sql
pub mod Rows
mod Storage
mod Requests
mod Disk
mod Pipeline
mod Console
mod Replication
mod Sent
mod Rules
