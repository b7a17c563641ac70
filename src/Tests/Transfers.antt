-- ===== src/Tests/Transfers.antt =====
-- A table in the place of btcd's types, and what the adapter of Bitcoin signs and counts over it.
use Prim.Native.Nat.{ℕ, ◌<◌}
use Prim.Native.String.{String}
use mathlib.Core.Bool.{false, true}
use mathlib.Core.List.{List, [], ◌++◌, ◌∷◌}
use mathlib.Core.Option.{none, some}
use mathlib.Core.Path.{refl, ◌≡◌}
use native.Mathlib.Omega.{arith}
use omnicatena.Base.{eqb, if◌then◌else◌, length, ltb, string_eq}
use omnicatena.Base.Bytes.{Bytes, codes}
use omnicatena.Base.Int.{pos, ℤ, ◌≤ℤ◌}
use omnicatena.Base.Result.{ok}
use omnicatena.Chain.Bitcoin.Assemble.{fee_of}
use omnicatena.Chain.Bitcoin.Client.{Btcd, IsWire, UnsignedPayload}
use omnicatena.Chain.Bitcoin.Coins.{Unspent, Utxo, select_utxos, spendable}
use omnicatena.Chain.Bitcoin.Queries.{balance_of, balance_of-eq}
use omnicatena.Chain.Bitcoin.Signing.{derive_account, sign}
use omnicatena.Chain.Bitcoin.Signing.Laws.{
  KeepsScripts, Unlocks, public_key-derive_account, sign-eq_ok,
}
use omnicatena.Domain.{
  Account, FeeEstimate, SignedTx, TransferRequest, UnsignedTx, chain_bitcoin, no_account, no_amount,
}
use omnicatena.HdWallet.Curve.{Ed25519, IsPaired, Secp256k1}
use omnicatena.HdWallet.Derive.{Bip32, derive_key}
use omnicatena.HdWallet.Path.Laws.{parse_path-print_path, print_path}
use omnicatena.Keystore.Signing.{mem_signer}
use omnicatena.Port.{Signer}
use omnicatena.Tests.Fixtures.{sort_coins, sort_coins-IsSort, three_coins, three_coins-IsMoney}

pub record Table : Type 0 where
  ins : List (String × ℕ)
  outs : List (ℤ × Bytes)
  scripts : ℕ → Bytes

abbrev empty : Table
empty = record { ins = []; outs = []; scripts = λ i. [] }

-- Two coins of a payment, and one of a coinbase that is too young.
abbrev pub reported : List (Unspent ℕ)
reported =
    record {
      txid = "c1";
      vout = 0;
      script_pub_key = codes "0a";
      amount = 3000;
      coinbase = false;
      height = pos 5;
    }
    ∷ record {
      txid = "c2";
      vout = 1;
      script_pub_key = codes "0b";
      amount = 9000;
      coinbase = true;
      height = pos 60;
    }
    ∷ record {
      txid = "c3";
      vout = 2;
      script_pub_key = codes "0c";
      amount = 4000;
      coinbase = true;
      height = pos 1;
    }
    ∷ []

-- Numbers stand for float64, a text for its hash and an address for its script.
abbrev pub table : Btcd ℕ Table String Bytes
table = record {
  new_amount = λ n. ok (pos n);
  is_positive = λ n. ltb 0 n;
  sat_per_vbyte = pos;
  unmarshal_fee_rate = λ _. none;
  unmarshal_unspents = λ _. ok reported;
  unmarshal_int64 = λ _. ok (pos 100);
  marshal_payload = λ p. ok p.raw_tx;
  unmarshal_payload = λ raw. ok (record { raw_tx = raw; script_pub_keys = raw ∷ [] });
  decode_address = λ a. ok (codes a);
  pay_to_addr_script = ok;
  new_hash_from_str = ok;
  hash_string = λ h. h;
  new_msg_tx = empty;
  add_tx_in = λ t h v. record t { ins = t.ins ++ (h, v) ∷ [] };
  add_tx_out = λ t v s. record t { outs = t.outs ++ (v, s) ∷ [] };
  tx_in = λ t. t.ins;
  tx_out = λ t. t.outs;
  script_of = λ t i. t.scripts i;
  set_signature_script = λ t i s. record t { scripts = λ k. if eqb k i then s else t.scripts k };
  serialize = λ t. ok (length t.ins ∷ length t.outs ∷ t.scripts 0);
  deserialize = λ _. ok (record empty { ins = ("aa", 0) ∷ [] });
  tx_hash = λ _. "hash";
  calc_signature_hash = λ script t i. ok (script ++ length t.ins ∷ i ∷ []);
  signature_script = λ sig key. ok (sig ++ key);
  hash160_address = ok;
  encode_address = λ _. "address";
}

pub table-IsWire : IsWire table
table-IsWire = record {
  tx_in-new = refl;
  tx_out-new = refl;
  tx_in-add_in = λ t h v. refl;
  tx_out-add_in = λ t h v. refl;
  tx_in-add_out = λ t v s. refl;
  tx_out-add_out = λ t v s. refl;
}

abbrev pub pay_500 : TransferRequest
pay_500 = record {
  network = record { chain = "bitcoin"; env = "local" };
  source = "alice";
  dest = "bob";
  amount = record no_amount { base = some (pos 500) };
  speed = "fast";
}

-- 226 bytes at 20 satoshis each
abbrev pub fee_4520 : FeeEstimate
fee_4520 = fee_of table "fast" (ok [])

abbrev pub built : UnsignedTx
built = record {
  chain = chain_bitcoin;
  signing_account = no_account;
  request = pay_500;
  fee = fee_4520;
  payload = 2 ∷ 2 ∷ [];
}

table-KeepsScripts : KeepsScripts table
table-KeepsScripts = record {
  tx_in-set = λ t i s. refl;
  tx_out-set = λ t i s. refl;
  script-set = λ t i s small. ground arith;
  script-other = λ t i k s before. ground arith;
  hash-set = λ t i k s script. refl;
}

abbrev echo_signer : Signer
echo_signer = record { sign = λ acc digest. ok digest; public_key = λ acc. ok (9 ∷ []) }

abbrev signed_500 : SignedTx
signed_500 = record {
  chain = chain_bitcoin;
  raw = 1 ∷ 0 ∷ 2 ∷ 2 ∷ 1 ∷ 0 ∷ 1 ∷ 9 ∷ [];
  hash = "hash";
}

sign_500 : sign table built echo_signer ≡ ok signed_500
unfolding sign
sign_500 = refl

sign-eq_ok_example :
    (p : UnsignedPayload) × (tx : Table) × (signed : Table) × (key : Bytes)
    × (table.unmarshal_payload built.payload ≡ ok p)
    × (table.deserialize p.raw_tx ≡ ok tx)
    × (echo_signer.public_key no_account ≡ ok key)
    × (signed.ins ≡ tx.ins)
    × (signed.outs ≡ tx.outs)
    × ((k : ℕ)
        → k < length tx.ins
        → Unlocks table echo_signer no_account p.script_pub_keys key tx k (signed.scripts k))
    × (table.serialize signed ≡ ok signed_500.raw)
    × (signed_500.hash ≡ "hash")
sign-eq_ok_example = sign-eq_ok table table-KeepsScripts built echo_signer signed_500 sign_500

-- A key is the list of the indices that led to it, and is its own public key.
abbrev pub index_keys : Bip32 (List ℕ)
index_keys = record { new_master = λ seed. ok []; derive = λ key idx. ok (key ++ idx ∷ []) }

abbrev pub plain_curve : Secp256k1 (List ℕ) (List ℕ)
plain_curve = record {
  ec_pub_key = ok;
  ec_priv_key = ok;
  compressed = λ priv. priv;
  sign_der = λ priv digest. digest;
  sign_rsv = λ digest priv. ok digest;
}

plain_curve-IsPaired : IsPaired plain_curve
plain_curve-IsPaired = record { paired = λ key priv pub_key p q. cc }

abbrev plain_ed : Ed25519 Bytes
plain_ed = record { new_key_from_seed = λ s. s; sign = λ key msg. msg; public = λ key. key }

abbrev no_hmac : Bytes → Bytes → Bytes
no_hmac key message = []

abbrev pub path_7 : Bytes
path_7 = print_path ((7, false) ∷ [])

abbrev account_7 : Account
account_7 = record { chain = chain_bitcoin; address = "address"; path = path_7 }

pub derive_key_7 : derive_key index_keys [] path_7 ≡ ok (7 ∷ [])
unfolding derive_key
derive_key_7 =
    rw (parse_path-print_path ((7, false) ∷ []) (λ e. absurd (cc)) (omega arith, tt)) refl

derive_account_7 : derive_account table index_keys plain_curve [] path_7 ≡ ok account_7
unfolding derive_account
derive_account_7 = rw derive_key_7 refl

public_key-derive_account_example :
    (pub_key : Bytes) × (addr : Bytes) × ((mem_signer no_hmac index_keys plain_curve plain_ed
          []).public_key
        account_7
      ≡ ok pub_key)
    × (table.hash160_address pub_key ≡ ok addr)
    × (account_7.address ≡ table.encode_address addr)
public_key-derive_account_example =
    public_key-derive_account table no_hmac index_keys plain_curve plain_ed plain_curve-IsPaired []
      path_7 account_7 (7 ∷ []) (7 ∷ []) derive_account_7 derive_key_7 refl

balance_of-eq_example :
    ((balance_of three_coins).base ≡ some (pos 1100))
    × ((tip need : ℤ) (picked : List Utxo) (total : ℤ)
        → select_utxos sort_coins (spendable tip three_coins) need ≡ ok (picked, total)
        → total ≤ℤ pos 1100)
balance_of-eq_example = balance_of-eq sort_coins three_coins sort_coins-IsSort three_coins-IsMoney
