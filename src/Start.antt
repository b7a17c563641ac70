-- ===== src/Start.antt =====
-- cmd/api/main.go and cmd/cli/main.go: what the programs put together, and in which order.
pub mod Laws
pub mod Created
pub mod Monitored
use Prim.Native.Nat.{ℕ}
use Prim.Native.String.{String}
use mathlib.Core.Bool.{Bool}
use mathlib.Core.List.{List, [], ◌∷◌}
use omnicatena.App.Monitor.{MonitorService, start_monitoring}
use omnicatena.App.Transactions.{TransactionService}
use omnicatena.App.Wallets.{WalletService}
use omnicatena.Base.{Eq}
use omnicatena.Base.Bytes.{Bytes}
use omnicatena.Base.Exec.{Exec, lift, pure, wrapped, ◌>>=◌, ◌>>◌}
use omnicatena.Base.Int.{ℤ}
use omnicatena.Base.Map.{Map}
use omnicatena.Base.Result.{Result}
use omnicatena.Chain.Adapters.{
  bitcoin_adapter, evm_adapter, new_bitcoin, new_evm, solana_adapter, tron_adapter,
}
use omnicatena.Chain.Bitcoin.Client.{Btcd, Rpc}
use omnicatena.Chain.Bitcoin.Coins.{Utxo}
use omnicatena.Chain.Evm.Client.{EvmConfig, TxView}
use omnicatena.Chain.Evm.Transfer.{EthClient, EthTypes}
use omnicatena.Chain.Evm.Watcher.{BlockClient}
use omnicatena.Chain.Evm.Watching.{Watcher, evm_watcher, new_watcher, set_cursor_store}
use omnicatena.Chain.Registry.{Registry, new_registry, register_watcher}
use omnicatena.Chain.Solana.{SolanaGo, SolanaRpc}
use omnicatena.Chain.Tron.{Base58, Json, Node}
use omnicatena.Config.{BitcoinNode, Config, Evm, publisher}
use omnicatena.Domain.{Address, ChainId, TxEvent, chain_base, chain_ethereum}
use omnicatena.Events.Kafka
use omnicatena.Events.Kafka.{Broker, WriterConfig, kafka_publisher}
use omnicatena.HdWallet.Curve.{Ed25519, Secp256k1}
use omnicatena.HdWallet.Derive.{Bip32}
use omnicatena.Port.{
  ChainAdapter, ChainCursorStore, ChainWatcher, KeyStore, Selected, TransactionRepository,
  TxEventPublisher, WalletRepository,
}
use omnicatena.Transport.Commands.{Cli, Root, new_cli, root}
use omnicatena.Transport.Http.{CreateWalletRequest, TransferBody}
use omnicatena.Transport.Routes.{Handler, Route, new_handler, router}

-- The libraries that the adapters and the watchers call.
pub record Libraries : Type 1 where
  pub Key : Type 0
  pub Priv : Type 0
  pub EdKey : Type 0
  pub bip32 : Bip32 Key
  pub curve : Secp256k1 Key Priv
  pub hmac : Bytes → Bytes → Bytes
  pub ed : Ed25519 EdKey
  pub pubkey_to_address : Priv → Bytes
  pub pubkey_to_hex : Priv → Address
  pub EthAddress : Type 0
  pub EthTx : Type 0
  pub EthHash : Type 0
  pub eth_types : EthTypes EthAddress EthTx EthHash
  pub F : Type 0
  pub BtcTx : Type 0
  pub BtcHash : Type 0
  pub BtcAddress : Type 0
  pub btcd : Btcd F BtcTx BtcHash BtcAddress
  pub sort : List Utxo → List Utxo
  pub PublicKey : Type 0
  pub SolHash : Type 0
  pub Instruction : Type 0
  pub SolTx : Type 0
  pub solana_go : SolanaGo PublicKey SolHash Instruction SolTx
  pub base58 : Base58
  pub json : Json
  pub to_text : Bytes → String
  pub eth_address_eq : Eq EthAddress
  pub view : ℤ → TxView EthAddress EthTx

-- What lies outside the programs, acting on the state `S`: the connections to the nodes and to the
-- database, the stores over the latter, Kafka, the clock, the order of a range over a map, and the
-- start of a goroutine. `serve` is http.ListenAndServe with chi's router, and `execute` is cobra's
-- Execute on the arguments of the process.
pub record Outside (S : Type 0) : Type 1 where
  pub libs : Libraries
  pub open_pool : Bytes → Exec S (Unit {0})
  pub ping : Exec S (Unit {0})
  pub dial : Bytes → Result (EthClient S libs.EthAddress libs.EthTx libs.EthHash)
  pub dial_blocks : Bytes → Result (BlockClient S libs.EthTx)
  pub connect_btcd : BitcoinNode → Result (Rpc S libs.BtcTx libs.BtcHash)
  pub sol_rpc : Bytes → SolanaRpc S libs.PublicKey libs.SolHash libs.SolTx
  pub tron_node : Bytes → Node S
  pub keys : KeyStore S
  pub wallets : WalletRepository S
  pub transactions : TransactionRepository S
  pub cursors : ChainCursorStore S
  pub kafka_writer : WriterConfig → Broker S
  pub marshal_event : TxEvent → Result Bytes
  pub now : Exec S ℕ
  pub format_id : ℕ → String
  pub range_adapters : Map ChainId (ChainAdapter S) → Map ChainId (ChainAdapter S)
  pub range_owners : Map Address String → Map Address String
  pub go_poll : Watcher S libs.EthTx → ℕ → Map libs.EthAddress Address → Exec S (List Selected)
  pub go : Exec S Bool → Exec S (Unit {0})
  pub read_create : Bytes → Result CreateWalletRequest
  pub read_transfer : Bytes → Result TransferBody
  pub serve : List (Route S) → Exec S (Unit {0})
  pub read_passphrase : Exec S Bytes
  pub rfc3339 : ℕ → Bytes
  pub execute : Root S → Exec S (Unit {0})

-- The clients of the nodes that need a connection.
pub record Nodes {S : Type 0} (o : Outside S) : Type 0 where
  pub eth_client : EthClient S o.libs.EthAddress o.libs.EthTx o.libs.EthHash
  pub base_client : EthClient S o.libs.EthAddress o.libs.EthTx o.libs.EthHash
  pub btc_rpc : Rpc S o.libs.BtcTx o.libs.BtcHash

abbrev pub evm_config : Evm → ChainId → EvmConfig
evm_config cfg chain = record { rpc_url = cfg.rpc_url; chain_id = cfg.chain_id; chain = chain }

module _ {S : Type 0} (o : Outside S) (cfg : Config) where
  abbrev pub solana_and_tron : List (ChainAdapter S)
  solana_and_tron =
      solana_adapter o.libs.solana_go (o.sol_rpc cfg.solana_rpc_url) o.libs.hmac o.libs.ed
      ∷ tron_adapter o.libs.bip32 o.libs.curve o.libs.base58 o.libs.json
          (o.tron_node cfg.tron_rpc_url) o.libs.to_text o.libs.pubkey_to_address
      ∷ []

  -- `[]port.ChainAdapter{ethAdapter, baseAdapter, btcAdapter, solAdapter, tronAdapter}` over clients
  abbrev pub adapters : Nodes o → List (ChainAdapter S)
  adapters n =
      evm_adapter o.libs.bip32 o.libs.curve o.libs.eth_types n.eth_client o.libs.pubkey_to_hex
        chain_ethereum cfg.ethereum.chain_id
      ∷ evm_adapter o.libs.bip32 o.libs.curve o.libs.eth_types n.base_client o.libs.pubkey_to_hex
          chain_base cfg.base.chain_id
      ∷ bitcoin_adapter o.libs.bip32 o.libs.curve o.libs.btcd n.btc_rpc o.libs.sort
      ∷ solana_and_tron

  evm_new : Evm → ChainId → Result (ChainAdapter S)
  evm_new node chain =
      new_evm o.libs.bip32 o.libs.curve o.libs.eth_types o.libs.pubkey_to_hex o.dial
        (evm_config node chain)

  -- What both programs begin with. log.Fatalf ends the program, with the error.
  unfoldable pub connect : Exec S (List (ChainAdapter S))
  unfolding evm_new
  connect = do
    wrapped "db: %v" [] (o.open_pool cfg.database_url)
    wrapped "db: ping: %v" [] o.ping
    eth ← wrapped "eth adapter: %v" [] (lift (evm_new cfg.ethereum chain_ethereum))
    base ← wrapped "base adapter: %v" [] (lift (evm_new cfg.base chain_base))
    btc ← wrapped "btc adapter: %v" [] (
        lift (
          new_bitcoin o.libs.bip32 o.libs.curve o.libs.btcd o.libs.sort o.connect_btcd cfg.bitcoin))
    pure (eth ∷ base ∷ btc ∷ solana_and_tron)

module _ {S : Type 0} (o : Outside S) where
  abbrev pub wallet_service : Registry S (ChainWatcher S) → WalletService S (ChainWatcher S)
  wallet_service registry = record {
    registry = registry;
    keys = o.keys;
    repo = o.wallets;
    now = o.now;
    format_id = o.format_id;
    range = o.range_adapters;
  }

  abbrev pub transaction_service :
      Registry S (ChainWatcher S) → TransactionService S (ChainWatcher S)
  transaction_service registry = record { registry = registry; keys = o.keys; repo = o.wallets }

  abbrev pub watcher_port : Watcher S o.libs.EthTx → ChainWatcher S
  watcher_port = evm_watcher ⦃e = o.libs.eth_address_eq⦄ o.libs.view o.go_poll

  -- The registry of the API, with the watchers of Ethereum and Base.
  unfoldable pub api_registry :
      List (ChainAdapter S)
      → Watcher S o.libs.EthTx
      → Watcher S o.libs.EthTx
      → Registry S (ChainWatcher S)
  api_registry adapters eth base =
      register_watcher base.cfg.chain (watcher_port base)
        (register_watcher eth.cfg.chain (watcher_port eth) (new_registry adapters))

  abbrev pub monitor_service : Config → Registry S (ChainWatcher S) → MonitorService S
  monitor_service cfg registry = record {
    registry = registry;
    publisher =
        publisher cfg (λ brokers topic.
          kafka_publisher o.marshal_event (Kafka.new o.kafka_writer brokers topic));
    tx_repo = o.transactions;
    range = o.range_owners;
  }

  abbrev pub watcher_for : Evm → ChainId → Result (Watcher S o.libs.EthTx)
  watcher_for node chain = new_watcher o.dial_blocks (evm_config node chain)

  abbrev pub handler : Registry S (ChainWatcher S) → Handler S (ChainWatcher S)
  handler registry =
      new_handler (wallet_service registry) (transaction_service registry) o.read_create
        o.read_transfer

  abbrev pub cli : Registry S (ChainWatcher S) → Cli S (ChainWatcher S)
  cli registry =
      new_cli (wallet_service registry) (transaction_service registry) o.read_passphrase o.rfc3339

  unfoldable pub api_main : Config → Exec S (Unit {0})
  api_main cfg = do
    adapters ← connect o cfg
    eth ← wrapped "eth watcher: %v" [] (lift (watcher_for cfg.ethereum chain_ethereum))
    base ← wrapped "base watcher: %v" [] (lift (watcher_for cfg.base chain_base))
    let registry =
        api_registry adapters (set_cursor_store o.cursors eth) (set_cursor_store o.cursors base)
    start_monitoring o.go (monitor_service cfg registry) o.wallets
    o.serve (router (handler registry))

  unfoldable pub cli_main : Config → Exec S (Unit {0})
  cli_main cfg = do
    adapters ← connect o cfg
    let registry = new_registry adapters
    o.execute (root (cli registry))
