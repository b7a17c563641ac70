-- ===== src/Repository.antt =====
-- internal/adapter/repository: wallets, transactions and cursors.
pub mod Memory
pub mod Cursor
pub mod Tables
pub mod Wallets
pub mod Events
pub mod Stores
pub mod Contract
