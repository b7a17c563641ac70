-- ===== src/Tests/Payments.antt =====
-- A Bitcoin transfer that is built, from the node's coins to the payload.
use Prim.Native.Nat.{ℕ, ◌+◌}
use Prim.Native.String.{String}
use mathlib.Core.Bool.{false, true}
use mathlib.Core.List.{List, Perm, [], ◌++◌, ◌∷◌}
use mathlib.Core.Option.{some}
use mathlib.Core.Path.{ap, refl, subst, sym, ◌≡◌}
use native.Mathlib.Omega.{arith}
use omnicatena.Base.{All, eqb, if◌then◌else◌, length, ltb, string_eq, ◌==◌}
use omnicatena.Base.Bytes.{hex_decode}
use omnicatena.Base.Int.{pos, wrap64, ℤ, ◌+ℤ◌, ◌-ℤ◌, ◌≤ℤ◌}
use omnicatena.Base.Result.{err, ok, sentinel}
use omnicatena.Chain.Bitcoin.Assemble.{assemble, fallback_fee_rate, fee_of}
use omnicatena.Chain.Bitcoin.Assemble.Laws.{IsTransfer}
use omnicatena.Chain.Bitcoin.Client.{Rpc}
use omnicatena.Chain.Bitcoin.Coins.{Utxo, immature, pick, read_unspents, select_utxos, spendable}
use omnicatena.Chain.Bitcoin.Coins.Selection.{IsMoney}
use omnicatena.Chain.Bitcoin.Transfer.{build_transfer, estimate_fee, fetch_utxos, spendable_utxos}
use omnicatena.Chain.Bitcoin.Transfer.Laws.{IsMature, ReportsMoney, Told, build_transfer-IsTransfer}
use omnicatena.Domain.{chain_bitcoin}
use omnicatena.Tests.Fixtures.{sort_coins, sort_coins-IsSort}
use omnicatena.Tests.Transfers.{Table, built, fee_4520, pay_500, reported, table, table-IsWire}

-- A node that has coins for alice and for nobody else. The state counts the calls.
abbrev coin_node : Rpc ℕ Table String
coin_node = record {
  estimate_smart_fee = λ n. (ok [], n + 1);
  scan_tx_out_set =
      λ addr n. ((if addr == "alice" then ok [] else err (sentinel "no coins")), n + 1);
  get_block_count = λ n. (ok [], n + 1);
  send_raw_transaction = λ t n. (ok "hash", n + 1);
  get_raw_transaction_verbose = λ h n. (ok 1, n + 1);
}

read_reported :
    read_unspents table.new_amount reported
    ≡ record {
      txid = "c1";
      vout = 0;
      satoshis = pos 3000;
      script_pub_key = 10 ∷ [];
      coinbase = false;
      height = pos 5;
    }
      ∷ record {
        txid = "c2";
        vout = 1;
        satoshis = pos 9000;
        script_pub_key = 11 ∷ [];
        coinbase = true;
        height = pos 60;
      }
      ∷ record {
        txid = "c3";
        vout = 2;
        satoshis = pos 4000;
        script_pub_key = 12 ∷ [];
        coinbase = true;
        height = pos 1;
      }
      ∷ []
unfolding read_unspents hex_decode
read_reported = refl

coin_node-ReportsMoney : ReportsMoney table coin_node
coin_node-ReportsMoney = record {
  money = λ addr s t raw found scanned parsed.
      let same : reported ≡ found = ap (λ x. elim x [ ok y ↦ y | err _ ↦ found ]) parsed in
      subst (λ l. IsMoney (read_unspents table.new_amount l)) same
        (subst IsMoney (sym read_reported)
          (record { nonneg = (refl, (refl, (refl, tt))); fits = omega arith }));
}

build_500 : build_transfer table coin_node sort_coins pay_500 0 ≡ (ok built, 3)
unfolding build_transfer estimate_fee fetch_utxos spendable_utxos read_unspents spendable immature
    assemble select_utxos sort_coins pick fee_of wrap64 hex_decode omnicatena.Base.Int.◌+ℤ◌
    omnicatena.Base.Int.◌-ℤ◌ omnicatena.Base.Int.◌*ℤ◌ fallback_fee_rate
build_500 = refl

estimated_500 : estimate_fee table coin_node pay_500 0 ≡ (ok fee_4520, 1)
unfolding estimate_fee
estimated_500 = refl

fee_is_4520 : fee_4520.total.base ≡ some (pos 4520)
unfolding fee_of wrap64 omnicatena.Base.Int.◌*ℤ◌ fallback_fee_rate
fee_is_4520 = refl

build_transfer-IsTransfer_example :
    (all : List Utxo) × (tip : ℤ) × (mature : List Utxo) × (young : List Utxo) × Told table
      coin_node "alice" all tip 1 3
    × Perm (mature ++ young) all
    × All (IsMature tip) mature
    × IsTransfer table table-IsWire pay_500 mature 500 4520 (2 ∷ 2 ∷ [])
    × (built.request ≡ pay_500)
    × (built.fee ≡ fee_4520)
    × (built.chain ≡ chain_bitcoin)
build_transfer-IsTransfer_example =
    build_transfer-IsTransfer table coin_node table-IsWire sort_coins-IsSort coin_node-ReportsMoney
      pay_500 fee_4520 500 4520 0 1 3 estimated_500 refl fee_is_4520 (omega arith) build_500
