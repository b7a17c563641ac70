-- ===== src/Lib.antt =====
-- Omnicatena: a wallet for several chains. An HTTP service and a command line create wallets, derive
-- an account on each chain from one seed, estimate and send native transfers, and follow the blocks
-- of the EVM chains for transactions that touch the wallets' addresses.
--
-- The parts, and the files that model them:
--   Base        integers of 64 bits, decimal and hexadecimal text, association lists for Go maps
--               (Base.Map), results with Go's wrapped errors (Base.Result), and actions on a state
--               that may fail (Base.Exec)
--   Domain      internal/domain: chains, assets, accounts, wallets, transactions, events
--   Port        internal/port: the interfaces, as records over the state `S` of what lies behind
--   HdWallet    internal/hdwallet/hdwallet.go: Path (parsePath, and bip44Path of
--               internal/app/wallet_service.go) and Derive (DeriveKey, DeriveKeyEd25519)
--   HdWallet.Curve  the keys' operations that the program calls, as parameters
--   Keystore    internal/adapter/keystore: sealing a seed, the store in memory (keystore.go), the one
--               over a table (postgres.go), the signer (signer.go), and what the
--               use cases rely on of a key store (Contract)
--   Repository  internal/adapter/repository: wallets in memory (memory.go), the cursors of the
--               watchers (cursor_postgres.go), the tables of db/schema.sql with statements and
--               transactions on them (Tables), wallets in tables (Wallets, for postgres.go) and
--               events in tables (Events, for transaction_postgres.go), all of them as the ports
--               (Stores), and what the use cases rely on of a wallet repository (Contract)
--   Events      internal/adapter/events/kafka/publisher.go
--   Chain       internal/adapter/chain: Registry (registry.go); Bitcoin (bitcoin/adapter.go: Coins for
--               the selection of coins, Assemble for fees and BuildTransfer, Transfer for the calls
--               of the node, Signing and Queries for the rest); Evm (evm/watcher.go: Match for
--               MatchTransactions, Watcher for Watch and poll; evm/adapter.go: Fees, Transfer and
--               Signing; Watching, the watcher as the port's record); Solana (solana/adapter.go);
--               Tron (tron/adapter.go); Adapters, the four adapters as the port's record
--   App         internal/app: Wallets, Transactions and Monitor, one file for each service; Monitor
--               also has startMonitoring of cmd/api/monitoring.go
--   Monitoring  a watcher's goroutine and the monitor service as one system whose steps interleave
--   Transport   internal/transport: Http and Routes (http/handler.go: the handlers, and Router), Cli and
--               Commands (cli/tx.go and cli/wallet.go: what the commands do, and how they and cli.go
--               declare them), Answers, Agreement and Operations on both
--   Config      internal/config/config.go and internal/adapter/events/noop.go
--   Start       main of cmd/api/main.go and of cmd/cli/main.go
--   Tests       the theorems at concrete inputs
--
-- How they interact: the services of App call the ports. A transfer takes the adapter from the
-- registry, the wallet from the repository and a signer from the key store, and then has the adapter
-- build, sign and broadcast; the HTTP API and the command line make the same request for it. The EVM
-- watcher sends events over an unbuffered channel to the monitor service, which saves each under the
-- wallet that owns its address, in the tables of Repository, and then publishes it. App.Monitor has
-- the service's side of the channel, as the list of what its selects give; Monitoring has both sides.
--
-- How code becomes definitions: a struct is a record, an operation a function with the same name
-- in snake case. `(T, error)` is `Result T`; a call that changes something outside is an `Exec S T`,
-- which keeps the state that an error leaves. An `int64` is an integer taken modulo 2^64 (`wrap64`)
-- after each operation. A `uint32` index is a natural number, its sum taken modulo 2^32. The height of a
-- block, a uint64 in the code, is a natural number without a bound: heights are taken to stay below
-- 2^64. A Go map is an association list; where the order of a range over a map shows, it is a
-- parameter.
--
-- Fuel: the loops over lists, slices and paths are structural. `scan`, the loop over block heights,
-- counts tip + 1 - next rounds, one for each height up to the tip. The printing of a number in
-- decimal (Base.Decimal) has one more round than the number, and a number has fewer digits than that.
-- The loop of Kafka's Publish has its five attempts as its count.
--
-- Parameters, with what their documentation says as hypotheses where a theorem needs it: btcd's
-- transactions and scripts (Btcd, IsWire, KeepsScripts), the nodes' calls (Rpc, BlockClient,
-- EthClient), hdkeychain (Bip32), HMAC-SHA512, the curves' keys (Secp256k1, IsPaired, Ed25519),
-- go-ethereum's transactions (TxView, EthTypes), Argon2id, bip39 and AES-GCM (Crypto, IsAead), the
-- two statements each of the key store and the cursors (IsEnvelopeTable, IsCursorTable), Kafka's
-- writer (Broker), sort.Slice (IsSort), solana-go (SolanaGo, SolanaRpc), base58 (IsCheck), the node of
-- TRON and its JSON (Node, Json, IsJson), the reading of JSON and of a passphrase, the order of a range
-- over a map (RangesOver, GivesAll), the start of a goroutine, and what the programs connect to (Start.Outside).
-- Coins that a node reports have amounts that are not negative and that fit an int64 together
-- (IsMoney, ReportsMoney). The hash that a signature of a Bitcoin transaction signs leaves out the
-- scripts of its inputs (KeepsScripts).
--
-- A statement of PostgreSQL is a function on the tables, and a list of answers decides which of the
-- calls of the server are done, refused, or done with their answer lost.
--
-- Not modelled: the drivers that connect, the serving of HTTP, and how chi and cobra find the route or
-- the command and read its parameters, flags and arguments, since the code only calls libraries there
-- (the routes and the commands that it declares are data); log lines; the locks, since each is held
-- for one access of a map; and the cancelling of a context, but for the selects of `Watch`, the answer
-- of `send` in Chain.Evm.Watcher and that of `wait` in Events.Kafka.
mod Base
pub mod Domain
pub mod Port
pub mod HdWallet
pub mod Chain
pub mod Keystore
pub mod Repository
pub mod App
pub mod Monitoring
pub mod Events
pub mod Transport
pub mod Config
pub mod Start
mod Tests
