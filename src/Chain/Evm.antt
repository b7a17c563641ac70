-- ===== src/Chain/Evm.antt =====
-- internal/adapter/chain/evm: the adapter and the watcher of Ethereum and Base. go-ethereum is a
-- parameter, in `Client`.
pub mod Fees
pub mod Transfer
pub mod Signing
pub mod Client
pub mod Match
pub mod Watcher
pub mod Watching
