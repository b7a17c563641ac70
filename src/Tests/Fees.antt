-- ===== src/Tests/Fees.antt =====
-- Fees and a transfer on an EVM chain, at concrete values. A transaction is what it was made from.
use Prim.Native.Nat.{ℕ, ◌+◌}
use Prim.Native.String.{String}
use mathlib.Core.List.{[], ◌∷◌}
use mathlib.Core.Option.{Option, some}
use mathlib.Core.Path.{refl, ◌≡◌}
use omnicatena.Base.Int.{pos, ℤ, ◌*ℤ◌, ◌+ℤ◌}
use omnicatena.Base.Result.{err, ok, sentinel}
use omnicatena.Chain.Evm.Client.{native_eth}
use omnicatena.Chain.Evm.Fees.{Scaled, estimate_from}
use omnicatena.Chain.Evm.Transfer.{DynamicFeeTx, EthClient, EthTypes, build_transfer, estimate_fee}
use omnicatena.Chain.Evm.Transfer.Laws.{build_transfer-eq_ok, expected, told}
use omnicatena.Domain.{TransferRequest, UnsignedTx, no_account}

abbrev tx_types : EthTypes String (DynamicFeeTx String) String
tx_types = record {
  hex_to_address = λ a. a;
  hex_to_hash = λ h. h;
  new_tx = λ t. t;
  marshal_binary = λ t. ok (t.nonce ∷ []);
  unmarshal_binary = λ raw. err (sentinel "short");
  signing_hash = λ t. [];
  with_signature = λ t sig. ok t;
  hash_hex = λ t. "0x1";
  gas_price = λ t. t.gas_fee_cap;
}

-- The state counts the calls.
abbrev node : EthClient ℕ String (DynamicFeeTx String) String
node = record {
  balance_at = λ a s. (ok (pos 1), s + 1);
  suggest_gas_tip_cap = λ s. (ok (pos 10), s + 1);
  latest_base_fee = λ s. (ok (some (pos 100)), s + 1);
  pending_nonce_at = λ a s. (ok 4, s + 1);
  send_transaction = λ t s. (ok tt, s + 1);
  transaction_by_hash = λ h s. (err (sentinel "NotFound"), s + 1);
  transaction_receipt = λ h s. (err (sentinel "NotFound"), s + 1);
}

abbrev pay : TransferRequest
pay = record {
  network = record { chain = "base"; env = "local" };
  source = "alice";
  dest = "bob";
  amount = record { asset = native_eth; base = some (pos 5) };
  speed = "fast";
}

abbrev payment : UnsignedTx
payment = record {
  chain = "base";
  signing_account = no_account;
  request = pay;
  fee = estimate_from "fast" (pos 10) (some (pos 100));
  payload = 4 ∷ [];
}

build_payment : build_transfer tx_types node "base" (pos 8453) pay 0 ≡ (ok payment, 3)
unfolding build_transfer estimate_fee
build_payment = refl

build_transfer-eq_ok_example :
    (nonce : ℕ) × (tip : ℤ) × (base_fee : Option ℤ) × (tip_cap : ℤ) × (fee_cap : ℤ) × (s1 : ℕ)
    × (s2 : ℕ) × (node.pending_nonce_at "alice" 0 ≡ (ok nonce, s1))
    × (node.suggest_gas_tip_cap s1 ≡ (ok tip, s2))
    × (node.latest_base_fee s2 ≡ (ok base_fee, 3))
    × ((n : ℕ) → tip ≡ pos n → Scaled n "fast" tip_cap)
    × (fee_cap ≡ (told tx_types node "base" (pos 8453) base_fee *ℤ pos 2) +ℤ tip_cap)
    × (tx_types.marshal_binary
          (tx_types.new_tx (expected tx_types node "base" (pos 8453) pay nonce tip_cap fee_cap))
        ≡ ok (4 ∷ []))
    × (payment.fee.total.base ≡ some (fee_cap *ℤ pos 21000))
    × (payment.request ≡ pay)
    × (payment.chain ≡ "base")
build_transfer-eq_ok_example =
    build_transfer-eq_ok tx_types node "base" (pos 8453) pay payment 0 3 build_payment
