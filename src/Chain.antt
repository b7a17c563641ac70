-- ===== src/Chain.antt =====
-- internal/adapter/chain: the registry and the five chains' adapters.
pub mod Bitcoin
pub mod Evm
pub mod Registry
pub mod Solana
pub mod Tron
pub mod Adapters
