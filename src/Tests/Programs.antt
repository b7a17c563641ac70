-- ===== src/Tests/Programs.antt =====
-- The two programs over concrete libraries and nodes that do not answer.
use Prim.Native.Nat.{ℕ}
use Prim.Native.String.{String}
use mathlib.Core.List.{List, []}
use mathlib.Core.Logic.{inr}
use mathlib.Core.Option.{none}
use mathlib.Core.Path.{refl, ◌≡◌}
use omnicatena.App.Wallets.{WalletService}
use omnicatena.Base.{string_eq}
use omnicatena.Base.Bytes.{Bytes}
use omnicatena.Base.Exec.{Exec}
use omnicatena.Base.Int.{pos}
use omnicatena.Base.Result.{err, ok, sentinel}
use omnicatena.Chain.Adapters.{new_bitcoin, new_evm}
use omnicatena.Chain.Evm.Watching.{Watcher, new_watcher}
use omnicatena.Config.{Config, load}
use omnicatena.Port.{ChainAdapter, ChainWatcher}
use omnicatena.Repository.Memory.{Wallets}
use omnicatena.Start.{
  Libraries, Outside, adapters, api_registry, connect, evm_config, wallet_service, watcher_for,
}
use omnicatena.Start.Laws.{IsWired}
use omnicatena.Tests.Fixtures.{sort_coins}
use omnicatena.Tests.Solana.{toy_ed, toy_go, toy_hmac, toy_rpc}
use omnicatena.Tests.Transfers.{Table, index_keys, plain_curve, table}
use omnicatena.Tests.Wallets.{in_memory, open_keys}

abbrev down {ℓ} : {A : Type ℓ} → Exec Wallets A
down s = (err (sentinel "connection refused"), s)

abbrev libraries : Libraries
libraries = record {
  Key = List ℕ;
  Priv = List ℕ;
  EdKey = ℕ;
  bip32 = index_keys;
  curve = plain_curve;
  hmac = toy_hmac;
  ed = toy_ed;
  pubkey_to_address = λ priv. priv;
  pubkey_to_hex = λ priv. "0xaa";
  EthAddress = String;
  EthTx = ℕ;
  EthHash = String;
  eth_types = record {
    hex_to_address = λ addr. addr;
    hex_to_hash = λ hash. hash;
    new_tx = λ tx. 1;
    marshal_binary = λ tx. ok [];
    unmarshal_binary = λ raw. ok 1;
    signing_hash = λ tx. [];
    with_signature = λ tx sig. ok tx;
    hash_hex = λ tx. "0x1";
    gas_price = λ tx. pos 0;
  };
  F = ℕ;
  BtcTx = Table;
  BtcHash = String;
  BtcAddress = Bytes;
  btcd = table;
  sort = sort_coins;
  PublicKey = String;
  SolHash = ℕ;
  Instruction = ℕ × String × String;
  SolTx = List (ℕ × String × String);
  solana_go = toy_go;
  base58 = record { check_encode = λ raw ver. "T1"; check_decode = λ addr. ok ([], 65) };
  json = record {
    marshal = λ body. ok [];
    read_balance = λ raw. ok (pos 0);
    read_raw = ok;
    read_error = λ raw. ok "";
    read_fields = λ raw. ok [];
    read_text = ok;
    read_broadcast = λ raw. err (sentinel "EOF");
    read_info = λ raw. err (sentinel "EOF");
    write_texts = λ texts. [];
    write_fields = λ fields. ok [];
  };
  to_text = λ raw. "07";
  eth_address_eq = string_eq;
  view = λ id. record {
    hex_to_address = λ a. a;
    hex = λ a. a;
    sender = λ t. err (sentinel "invalid sender");
    recipient = λ t. none;
    value = λ t. pos 0;
    hash_hex = λ t. "0x1";
  };
}

abbrev pub outside : Outside Wallets
outside = record {
  libs = libraries;
  open_pool = λ url s. (ok tt, s);
  ping = λ s. (ok tt, s);
  dial = λ url. ok (record {
    balance_at = λ addr. down;
    suggest_gas_tip_cap = down;
    latest_base_fee = down;
    pending_nonce_at = λ addr. down;
    send_transaction = λ tx. down;
    transaction_by_hash = λ hash. down;
    transaction_receipt = λ hash. down;
  });
  dial_blocks = λ url. ok (record { block_number = down; block_by_number = λ n. down });
  connect_btcd = λ cfg. ok (record {
    estimate_smart_fee = down;
    scan_tx_out_set = λ addr. down;
    get_block_count = down;
    send_raw_transaction = λ tx. down;
    get_raw_transaction_verbose = λ hash. down;
  });
  sol_rpc = λ url. toy_rpc;
  tron_node = λ url. record { rpc_url = "http://localhost:9090"; send = λ method path body. down };
  keys = open_keys;
  wallets = in_memory;
  transactions = record { save_event = λ id evt. down };
  cursors = record { get = λ chain. down; set = λ chain n. down };
  kafka_writer = λ config. record { write_messages = λ msg. down; close = down; wait = down };
  marshal_event = λ evt. ok [];
  now = λ s. (ok 7, s);
  format_id = λ n. "w7";
  range_adapters = λ m. m;
  range_owners = λ m. m;
  go_poll = λ w from watched. down;
  go = λ watch s. let (r, t) = watch s in (ok tt, t);
  read_create = λ body. err (sentinel "EOF");
  read_transfer = λ body. err (sentinel "EOF");
  serve = λ routes. down;
  read_passphrase = down;
  rfc3339 = λ t. [];
  execute = λ root. down;
}

abbrev pub config : Config
config = load (λ key. [])

abbrev pub list : List (ChainAdapter Wallets)
list = adapters outside config (record {
  eth_client = record {
    balance_at = λ addr. down;
    suggest_gas_tip_cap = down;
    latest_base_fee = down;
    pending_nonce_at = λ addr. down;
    send_transaction = λ tx. down;
    transaction_by_hash = λ hash. down;
    transaction_receipt = λ hash. down;
  };
  base_client = record {
    balance_at = λ addr. down;
    suggest_gas_tip_cap = down;
    latest_base_fee = down;
    pending_nonce_at = λ addr. down;
    send_transaction = λ tx. down;
    transaction_by_hash = λ hash. down;
    transaction_receipt = λ hash. down;
  };
  btc_rpc = record {
    estimate_smart_fee = down;
    scan_tx_out_set = λ addr. down;
    get_block_count = down;
    send_raw_transaction = λ tx. down;
    get_raw_transaction_verbose = λ hash. down;
  };
})

pub connected : (s : Wallets) → connect outside config s ≡ (ok list, s)
unfolding connect new_evm new_bitcoin load
connected s = refl

abbrev pub eth_watcher : Watcher Wallets ℕ
eth_watcher = record {
  cfg = evm_config config.ethereum "ethereum";
  client = record { block_number = down; block_by_number = λ n. down };
  cursor = none;
}

abbrev pub base_watcher : Watcher Wallets ℕ
base_watcher = record eth_watcher { cfg = evm_config config.base "base" }

pub eth_made : watcher_for outside config.ethereum "ethereum" ≡ ok eth_watcher
unfolding new_watcher load
eth_made = refl

pub base_made : watcher_for outside config.base "base" ≡ ok base_watcher
unfolding new_watcher load
base_made = refl

abbrev pub api_service : WalletService Wallets (ChainWatcher Wallets)
api_service = wallet_service outside (api_registry outside list eth_watcher base_watcher)

pub api_service-IsWired : IsWired outside list api_service.registry
api_service-IsWired = inr (eth_watcher, base_watcher, refl)
