-- ===== src/Chain/Bitcoin/Client.antt =====
-- What internal/adapter/chain/bitcoin/adapter.go calls of the node, of btcd and of encoding/json.
-- `F` is float64, `Tx` is wire.MsgTx, `Hash` is chainhash.Hash, `Addr` is btcutil.Address.
use Prim.Native.Nat.{ℕ}
use Prim.Native.String.{String}
use mathlib.Core.Bool.{Bool}
use mathlib.Core.List.{List, [], ◌++◌, ◌∷◌}
use mathlib.Core.Option.{Option}
use mathlib.Core.Path.{◌≡◌}
use omnicatena.Base.Bytes.{Bytes}
use omnicatena.Base.Exec.{Exec}
use omnicatena.Base.Int.{ℤ}
use omnicatena.Base.Result.{Result}
use omnicatena.Chain.Bitcoin.Coins.{Unspent}
use omnicatena.Domain.{Address}

pub record Rpc (S Tx Hash : Type 0) : Type 0 where
  pub estimate_smart_fee : Exec S Bytes
  pub scan_tx_out_set : Address → Exec S Bytes
  pub get_block_count : Exec S Bytes
  pub send_raw_transaction : Tx → Exec S Hash
  -- the number of confirmations
  pub get_raw_transaction_verbose : Hash → Exec S ℕ

-- What is stored in the payload of an unsigned transaction.
pub record UnsignedPayload : Type 0 where
  pub raw_tx : Bytes
  pub script_pub_keys : List Bytes

pub record Btcd (F Tx Hash Addr : Type 0) : Type 0 where
  pub new_amount : F → Result ℤ
  -- rate > 0 and int64(rate * 1e8 / 1000)
  pub is_positive : F → Bool
  pub sat_per_vbyte : F → ℤ
  pub unmarshal_fee_rate : Bytes → Option F
  pub unmarshal_unspents : Bytes → Result (List (Unspent F))
  pub unmarshal_int64 : Bytes → Result ℤ
  pub marshal_payload : UnsignedPayload → Result Bytes
  pub unmarshal_payload : Bytes → Result UnsignedPayload
  pub decode_address : Address → Result Addr
  pub pay_to_addr_script : Addr → Result Bytes
  pub new_hash_from_str : String → Result Hash
  pub hash_string : Hash → String
  pub new_msg_tx : Tx
  pub add_tx_in : Tx → Hash → ℕ → Tx
  pub add_tx_out : Tx → ℤ → Bytes → Tx
  pub tx_in : Tx → List (Hash × ℕ)
  pub tx_out : Tx → List (ℤ × Bytes)
  -- tx.TxIn[i].SignatureScript, read and written
  pub script_of : Tx → ℕ → Bytes
  pub set_signature_script : Tx → ℕ → Bytes → Tx
  pub serialize : Tx → Result Bytes
  pub deserialize : Bytes → Result Tx
  pub tx_hash : Tx → Hash
  pub calc_signature_hash : Bytes → Tx → ℕ → Result Bytes
  -- NewScriptBuilder().AddData(sig).AddData(pubKey).Script()
  pub signature_script : Bytes → Bytes → Result Bytes
  pub hash160_address : Bytes → Result Addr
  pub encode_address : Addr → Address

-- What btcd documents of a transaction that is built up by AddTxIn and AddTxOut.
pub record IsWire {F Tx Hash Addr : Type 0} (b : Btcd F Tx Hash Addr) : Type 0 where
  pub tx_in-new : b.tx_in b.new_msg_tx ≡ []
  pub tx_out-new : b.tx_out b.new_msg_tx ≡ []
  pub tx_in-add_in :
      (t : Tx) (h : Hash) (v : ℕ) → b.tx_in (b.add_tx_in t h v) ≡ b.tx_in t ++ (h, v) ∷ []
  pub tx_out-add_in : (t : Tx) (h : Hash) (v : ℕ) → b.tx_out (b.add_tx_in t h v) ≡ b.tx_out t
  pub tx_in-add_out : (t : Tx) (v : ℤ) (s : Bytes) → b.tx_in (b.add_tx_out t v s) ≡ b.tx_in t
  pub tx_out-add_out :
      (t : Tx) (v : ℤ) (s : Bytes) → b.tx_out (b.add_tx_out t v s) ≡ b.tx_out t ++ (v, s) ∷ []
