-- ===== src/Chain/Evm/Transfer.antt =====
-- The operations of internal/adapter/chain/evm/adapter.go that talk to a node. `EthAddress` is
-- common.Address, `Tx` is types.Transaction, `Hash` is common.Hash.
pub mod Laws
use Prim.Native.Nat.{ℕ}
use Prim.Native.String.{String}
use mathlib.Core.Bool.{Bool, false}
use mathlib.Core.List.{[], ◌∷◌}
use mathlib.Core.Option.{Option, none, some}
use omnicatena.Base.{if◌then◌else◌, string_eq, ◌==◌}
use omnicatena.Base.Bytes.{Bytes}
use omnicatena.Base.Exec.{Exec, attempt, fail, lift, pure, wrapped, ◌>>=◌, ◌>>◌}
use omnicatena.Base.Int.{pos, ℤ, ◌*ℤ◌}
use omnicatena.Base.Result.{Error, Result, err, ok, sentinel, str, wrapf}
use omnicatena.Chain.Evm.Client.{native_eth}
use omnicatena.Chain.Evm.Fees.{estimate_from, gas_limit, read_param}
use omnicatena.Domain.{
  Address, Amount, Asset, ChainId, FeeEstimate, SignedTx, Transaction, TransferRequest, UnsignedTx,
  bare_transaction, confirmed, failed, no_account, pending, unknown,
}

pub record Receipt : Type 0 where
  pub is_failed : Bool
  pub effective_gas_price : Option ℤ
  pub gas_used : ℕ
  pub block_number : ℕ

-- types.DynamicFeeTx
pub record DynamicFeeTx (EthAddress : Type 0) : Type 0 where
  pub chain_id : ℤ
  pub nonce : ℕ
  pub gas_tip_cap : ℤ
  pub gas_fee_cap : ℤ
  pub gas : ℕ
  pub to : EthAddress
  pub value : Option ℤ

pub record EthClient (S EthAddress Tx Hash : Type 0) : Type 0 where
  pub balance_at : EthAddress → Exec S ℤ
  pub suggest_gas_tip_cap : Exec S ℤ
  -- the base fee of the latest header
  pub latest_base_fee : Exec S (Option ℤ)
  pub pending_nonce_at : EthAddress → Exec S ℕ
  pub send_transaction : Tx → Exec S (Unit {0})
  pub transaction_by_hash : Hash → Exec S Tx
  pub transaction_receipt : Hash → Exec S Receipt

-- `signing_hash` and `with_signature` are those of the chain's London signer.
pub record EthTypes (EthAddress Tx Hash : Type 0) : Type 0 where
  pub hex_to_address : Address → EthAddress
  pub hex_to_hash : String → Hash
  pub new_tx : DynamicFeeTx EthAddress → Tx
  pub marshal_binary : Tx → Result Bytes
  pub unmarshal_binary : Bytes → Result Tx
  pub signing_hash : Tx → Bytes
  pub with_signature : Tx → Bytes → Result Tx
  pub hash_hex : Tx → String
  pub gas_price : Tx → ℤ

is_not_found : Error → Bool
is_not_found (sentinel name) = name == "NotFound"
is_not_found e = false

gas_price_or : ℤ → Option ℤ → ℤ
gas_price_or price none = price
gas_price_or price (some z) = z

module _ {S EthAddress Tx Hash : Type 0} (e : EthTypes EthAddress Tx Hash)
    (client : EthClient S EthAddress Tx Hash) (chain : ChainId) (chain_id : ℤ) where
  unfoldable pub balance : Address → Asset → Exec S Amount
  balance addr asset =
      wrapped "evm: balance %s: %w" (str addr ∷ []) (client.balance_at (e.hex_to_address addr))
      >>= λ bal. pure (record { asset = native_eth; base = some bal })

  unfoldable pub estimate_fee : TransferRequest → Exec S FeeEstimate
  estimate_fee req = wrapped "evm: suggest tip: %w" [] client.suggest_gas_tip_cap >>= λ tip.
      wrapped "evm: latest header: %w" [] client.latest_base_fee >>= λ base_fee.
      pure (estimate_from req.speed tip base_fee)

  abbrev pub transfer_tx : TransferRequest → FeeEstimate → ℕ → DynamicFeeTx EthAddress
  transfer_tx req fee nonce = record {
    chain_id = chain_id;
    nonce = nonce;
    gas_tip_cap = read_param "max_priority_fee_per_gas" fee;
    gas_fee_cap = read_param "max_fee_per_gas" fee;
    gas = gas_limit;
    to = e.hex_to_address req.dest;
    value = req.amount.base;
  }

  unfoldable pub build_transfer : TransferRequest → Exec S UnsignedTx
  build_transfer req =
      wrapped "evm: nonce: %w" [] (client.pending_nonce_at (e.hex_to_address req.source))
      >>= λ nonce. estimate_fee req >>= λ fee.
          wrapped "evm: marshal tx: %w" []
            (lift (e.marshal_binary (e.new_tx (transfer_tx req fee nonce))))
          >>= λ payload. pure (record {
            chain = chain;
            signing_account = no_account;
            request = req;
            fee = fee;
            payload = payload;
          })

  unfoldable pub broadcast : SignedTx → Exec S String
  broadcast tx = wrapped "evm: unmarshal: %w" [] (lift (e.unmarshal_binary tx.raw)) >>= λ signed.
      (wrapped "evm: broadcast: %w" [] (client.send_transaction signed) >> pure (e.hash_hex signed))

  mined : String → Tx → Receipt → Transaction
  mined hash tx receipt = record {
    chain = chain;
    hash = hash;
    status = if receipt.is_failed then failed else confirmed;
    confirmations = 0;
    block_height = receipt.block_number;
    fee = record {
      asset = native_eth;
      base =
          some (pos receipt.gas_used *ℤ gas_price_or (e.gas_price tx) receipt.effective_gas_price);
    };
  }

  unfoldable pub get_transaction : String → Exec S Transaction
  unfolding mined gas_price_or is_not_found
  get_transaction hash = attempt (client.transaction_by_hash (e.hex_to_hash hash)) >>= λ r. elim r [
    | err er ↦
        if is_not_found er
        then pure (bare_transaction chain hash unknown)
        else fail (wrapf "evm: get tx %s: %w" (str hash ∷ []) er)
    | ok tx ↦ attempt (client.transaction_receipt (e.hex_to_hash hash)) >>= λ q. elim q [
      | err er ↦ pure (bare_transaction chain hash pending)
      | ok receipt ↦ pure (mined hash tx receipt)
    ]
  ]
