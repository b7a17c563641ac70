-- ===== src/Chain/Bitcoin/Assemble.antt =====
-- Fees and the construction of a transfer in internal/adapter/chain/bitcoin/adapter.go: EstimateFee
-- and BuildTransfer from the selection of the coins on. `big.Int.Int64` keeps the low 64 bits of its
-- number, as `wrap64` does.
pub mod Laws
pub mod Parts
use Prim.Native.Nat.{ℕ, ◌*◌, ◌+◌}
use Prim.Native.String.{String}
use mathlib.Core.Bool.{Bool, true}
use mathlib.Core.List.{List, [], map, ◌∷◌}
use mathlib.Core.Option.{Option, none, some}
use omnicatena.Base.{if◌then◌else◌, string_eq, ◌==◌}
use omnicatena.Base.Bytes.{Bytes}
use omnicatena.Base.Decimal.{decimal, decimal_ℤ}
use omnicatena.Base.Int.{ltb_ℤ, pos, wrap64, ℤ, ◌*ℤ◌, ◌+ℤ◌, ◌-ℤ◌}
use omnicatena.Base.Result.{Result, err, ok, str, wrap, ◌>>=◌, ◌>>◌}
use omnicatena.Chain.Bitcoin.Client.{Btcd}
use omnicatena.Chain.Bitcoin.Coins.{Utxo, select_utxos}
use omnicatena.Domain.{
  Asset, FeeEstimate, TransferRequest, UnsignedTx, base_of, chain_bitcoin, no_account,
  speed_economy, speed_fast, speed_standard,
}

abbrev pub native_btc : Asset
native_btc = record { symbol = "BTC"; decimals = 8; native = true; contract_address = "" }

-- fallbackFeeRate[speed], 0 for a speed that the map lacks
unfoldable pub fallback_fee_rate : String → ℤ
fallback_fee_rate speed =
    if speed == speed_economy
    then pos 5
    else if speed == speed_standard
    then pos 10
    else if speed == speed_fast
    then pos 20
    else pos 0

-- one input and two outputs
abbrev pub v_size : ℕ
v_size = 1 * 148 + 2 * 34 + 10

module _ {F Tx Hash Addr : Type 0} (b : Btcd F Tx Hash Addr) where
  -- The rate of the node, where it has one.
  unfoldable pub fee_rate : String → Result Bytes → ℤ
  fee_rate speed (err e) = fallback_fee_rate speed
  fee_rate speed (ok raw) = elim (b.unmarshal_fee_rate raw) [
    | none ↦ fallback_fee_rate speed
    | some rate ↦ if b.is_positive rate then b.sat_per_vbyte rate else fallback_fee_rate speed
  ]

  unfoldable pub fee_of : String → Result Bytes → FeeEstimate
  unfolding fee_rate
  fee_of speed answer =
      let rate = fee_rate speed answer in
      record {
        speed = speed;
        total = record { asset = native_btc; base = some (wrap64 (pos v_size *ℤ rate)) };
        params =
            ("fee_rate_sat_per_vbyte", decimal_ℤ rate) ∷ ("estimated_vsize", decimal v_size) ∷ [];
      }

  -- The loop over the selected coins: an input and a script for each.
  pub add_inputs : Tx → List Utxo → Result Tx
  add_inputs tx [] = ok tx
  add_inputs tx (u ∷ rest) = do
    hash ← wrap "bitcoin: parse txid %s: %w" (str u.txid ∷ []) (b.new_hash_from_str u.txid)
    add_inputs (b.add_tx_in tx hash u.vout) rest

  -- The payment, and the change if it is positive.
  pub add_outputs : Tx → ℤ → Bytes → ℤ → Bytes → Tx
  add_outputs tx send to_script change change_script =
      let paid = b.add_tx_out tx send to_script in
      if ltb_ℤ (pos 0) change then b.add_tx_out paid change change_script else paid

  -- BuildTransfer from the selection of the coins on. `sort` is sort.Slice.
  unfoldable pub assemble :
      (List Utxo → List Utxo) → TransferRequest → FeeEstimate → List Utxo → Result UnsignedTx
  unfolding add_inputs add_outputs
  assemble sort req fee utxos = do
    fee_base ← base_of fee.total
    send_base ← base_of req.amount
    let fee_sat = wrap64 fee_base
    let send_sat = wrap64 send_base
    (selected, total_in) ←
        wrap "bitcoin: %w" [] (select_utxos sort utxos (wrap64 (send_sat +ℤ fee_sat)))
    to_addr ← wrap "bitcoin: decode to address: %w" [] (b.decode_address req.dest)
    from_addr ← wrap "bitcoin: decode from address: %w" [] (b.decode_address req.source)
    to_script ← wrap "bitcoin: to script: %w" [] (b.pay_to_addr_script to_addr)
    change_script ← wrap "bitcoin: change script: %w" [] (b.pay_to_addr_script from_addr)
    with_inputs ← add_inputs b.new_msg_tx selected
    let change_sat = wrap64 (wrap64 (total_in -ℤ send_sat) -ℤ fee_sat)
    let tx = add_outputs with_inputs send_sat to_script change_sat change_script
    raw ← wrap "bitcoin: serialize tx: %w" [] (b.serialize tx)
    payload ← wrap "bitcoin: marshal payload: %w" [] (
        b.marshal_payload (record {
          raw_tx = raw;
          script_pub_keys = map (λ (u : Utxo). u.script_pub_key) selected;
        }))
    ok (record {
      chain = chain_bitcoin;
      signing_account = no_account;
      request = req;
      fee = fee;
      payload = payload;
    })
