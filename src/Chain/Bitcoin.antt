-- ===== src/Chain/Bitcoin.antt =====
-- internal/adapter/chain/bitcoin/adapter.go. btcd (amounts, addresses, scripts, transactions and
-- their encodings), encoding/json and the node are parameters, in `Client`.
pub mod Signing
pub mod Queries
pub mod Client
pub mod Coins
pub mod Assemble
pub mod Transfer
