-- ===== src/Chain/Evm/Match.antt =====
-- `MatchTransactions`, `addressOf`, `txEvent` of internal/adapter/chain/evm/watcher.go, and the map of
-- watched addresses that `Watch` builds.
pub mod Laws
pub mod Events
pub mod Noticed
use Prim.Native.Nat.{ℕ}
use mathlib.Core.List.{List, [], ◌++◌, ◌∷◌}
use mathlib.Core.Option.{Option, none, some}
use omnicatena.Base.{Eq}
use omnicatena.Base.Int.{of_bits64, ℤ}
use omnicatena.Base.Map.{Map, insert, lookup}
use omnicatena.Base.Result.{Result, err, ok}
use omnicatena.Chain.Evm.Client.{TxView, native_eth}
use omnicatena.Domain.{Address, ChainId, TxEvent, TxEventType, confirmed, inbound, outbound}

module _ {EthAddress Tx : Type 0} ⦃e : Eq EthAddress⦄ (v : TxView EthAddress Tx) where
  -- the loop of Watch: a later address that denotes the same account replaces an earlier one
  pub add_watched : Map EthAddress Address → List Address → Map EthAddress Address
  add_watched m [] = m
  add_watched m (a ∷ rest) = add_watched (insert (v.hex_to_address a) a m) rest

  unfoldable pub watched_of : List Address → Map EthAddress Address
  unfolding add_watched
  watched_of addrs = add_watched [] addrs

  pub address_of : Option EthAddress → Address
  address_of none = ""
  address_of (some a) = v.hex a

  pub tx_event : TxEventType → ChainId → Address → Address → Tx → ℕ → ℤ → TxEvent
  tx_event kind chain addr counterparty tx block_number ts = record {
    kind = kind;
    chain = chain;
    address = addr;
    counterparty = counterparty;
    hash = v.hash_hex tx;
    amount = record { asset = native_eth; base = some (v.value tx) };
    status = confirmed;
    block_height = block_number;
    timestamp = ts;
  }

  module _ (chain : ChainId) (block_number : ℕ) (ts : ℤ) (watched : Map EthAddress Address) where
    pub outbound_of : Tx → Result EthAddress → List TxEvent
    outbound_of tx (err f) = []
    outbound_of tx (ok from) = elim (lookup from watched) [
      | none ↦ []
      | some addr ↦
          tx_event outbound chain addr (address_of (v.recipient tx)) tx block_number ts ∷ []
    ]

    -- fromAddr: empty if the sender cannot be recovered
    pub sender_address : Result EthAddress → Address
    sender_address (err f) = ""
    sender_address (ok from) = v.hex from

    pub inbound_of : Tx → Option EthAddress → List TxEvent
    inbound_of tx none = []
    inbound_of tx (some to) = elim (lookup to watched) [
      | none ↦ []
      | some addr ↦
          tx_event inbound chain addr (sender_address (v.sender tx)) tx block_number ts ∷ []
    ]

    -- the loop over the block
    pub match_all : List TxEvent → List Tx → List TxEvent
    match_all events [] = events
    match_all events (tx ∷ rest) =
        match_all ((events ++ outbound_of tx (v.sender tx)) ++ inbound_of tx (v.recipient tx)) rest

  -- time.Unix takes the block's time as an int64
  unfoldable pub match_transactions :
      ChainId → List Tx → ℕ → ℕ → Map EthAddress Address → List TxEvent
  unfolding match_all outbound_of inbound_of sender_address address_of tx_event
  match_transactions chain txs block_number block_time watched =
      match_all chain block_number (of_bits64 block_time) watched [] txs
