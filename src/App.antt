-- ===== src/App.antt =====
-- internal/app: the use cases, over the ports.
pub mod Wallets
pub mod Transactions
pub mod Monitor
