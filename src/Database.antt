-- ===== src/Database.antt =====
-- internal/database/sqlc: the statements of the queries, on the tables of the schema.
pub mod Rows
pub mod Order
pub mod Transactions
pub mod Integrity
pub mod Accounts
pub mod Merchants
pub mod CallLogs
