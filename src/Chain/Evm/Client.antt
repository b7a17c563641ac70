-- ===== src/Chain/Evm/Client.antt =====
-- What internal/adapter/chain/evm calls of go-ethereum. `EthAddress` is common.Address, `Tx` is
-- types.Transaction, `EthHash` is common.Hash.
use Prim.Native.Nat.{ℕ}
use Prim.Native.String.{String}
use mathlib.Core.Bool.{true}
use mathlib.Core.List.{List}
use mathlib.Core.Option.{Option}
use omnicatena.Base.Bytes.{Bytes}
use omnicatena.Base.Int.{ℤ}
use omnicatena.Base.Result.{Result}
use omnicatena.Domain.{Address, Asset, ChainId}

abbrev pub native_eth : Asset
native_eth = record { symbol = "ETH"; decimals = 18; native = true; contract_address = "" }

-- Config of adapter.go
pub record EvmConfig : Type 0 where
  pub rpc_url : Bytes
  pub chain_id : ℤ
  pub chain : ChainId

-- The calls that watcher.go makes of a transaction; `sender` is types.Sender with the chain's signer.
pub record TxView (EthAddress Tx : Type 0) : Type 0 where
  pub hex_to_address : Address → EthAddress
  pub hex : EthAddress → Address
  pub sender : Tx → Result EthAddress
  pub recipient : Tx → Option EthAddress
  pub value : Tx → ℤ
  pub hash_hex : Tx → String

pub record Block (Tx : Type 0) : Type 0 where
  pub transactions : List Tx
  pub time : ℕ
