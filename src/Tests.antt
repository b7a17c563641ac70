-- ===== src/Tests.antt =====
-- The theorems at concrete inputs.
mod Fixtures
mod Programs
mod Coins
mod Deliveries
mod Transfers
mod Payments
mod Restarts
mod Watchers
mod Keys
mod Wallets
mod Stores
mod Tables
mod Solana
mod Tron
mod Transport
mod Start
mod Opening
mod Fees
mod Monitors
