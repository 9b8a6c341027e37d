-- ===== src/Store.antt =====
-- internal/store: the MySQL tables and the operations on them, each a database transaction.
pub mod Tables
pub mod Transaction
pub mod AuditLogs
pub mod Rows
pub mod Creation
pub mod Transitions
pub mod Queries
pub mod Reviews
pub mod Changes
pub mod Moves
pub mod Trail
pub mod Histories
