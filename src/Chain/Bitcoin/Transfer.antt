-- ===== src/Chain/Bitcoin/Transfer.antt =====
-- BuildTransfer, with EstimateFee, fetchUTXOs and spendable, of
-- internal/adapter/chain/bitcoin/adapter.go, on the state of the node.
pub mod Laws
use mathlib.Core.List.{List, []}
use omnicatena.Base.Exec.{Exec, lift, wrapped, ◌>>=◌}
use omnicatena.Base.Result.{ok, wrap, ◌|>◌}
use omnicatena.Chain.Bitcoin.Assemble.{assemble, fee_of}
use omnicatena.Chain.Bitcoin.Client.{Btcd, Rpc}
use omnicatena.Chain.Bitcoin.Coins.{Utxo, read_unspents, spendable}
use omnicatena.Domain.{Address, FeeEstimate, TransferRequest, UnsignedTx}

module _ {S F Tx Hash Addr : Type 0} (b : Btcd F Tx Hash Addr) (rpc : Rpc S Tx Hash) where
  -- An answer of the node, or its refusal, makes an estimate all the same.
  unfoldable pub estimate_fee : TransferRequest → Exec S FeeEstimate
  estimate_fee req s =
      let (answer, s') = rpc.estimate_smart_fee s in (ok (fee_of b req.speed answer), s')

  unfoldable pub fetch_utxos : Address → Exec S (List Utxo)
  fetch_utxos addr = wrapped "bitcoin: scantxoutset: %w" [] (rpc.scan_tx_out_set addr) >>= λ raw.
      lift (
        wrap "bitcoin: parse scantxoutset: %w" [] (b.unmarshal_unspents raw)
        |> read_unspents b.new_amount)

  unfoldable pub spendable_utxos : List Utxo → Exec S (List Utxo)
  spendable_utxos utxos = wrapped "bitcoin: getblockcount: %w" [] rpc.get_block_count >>= λ raw.
      lift (
        wrap "bitcoin: parse blockcount: %w" [] (b.unmarshal_int64 raw) |> λ tip.
        spendable tip utxos)

  unfoldable pub build_transfer : (List Utxo → List Utxo) → TransferRequest → Exec S UnsignedTx
  build_transfer sort req = estimate_fee req >>= λ fee. fetch_utxos req.source >>= λ all.
      spendable_utxos all >>= λ utxos. lift (assemble b sort req fee utxos)
