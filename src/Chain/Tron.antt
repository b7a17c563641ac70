-- ===== src/Chain/Tron.antt =====
-- internal/adapter/chain/tron/adapter.go: the node's HTTP interface, addresses, and the operations.
pub mod Signing
pub mod Requests
pub mod Laws
use Prim.Native.Nat.{ℕ}
use Prim.Native.String.{String}
use mathlib.Core.Bool.{Bool, false, true}
use mathlib.Core.List.{List, [], ◌++◌, ◌∷◌}
use mathlib.Core.Option.{Option, none, some}
use omnicatena.Base.{eqb, if◌then◌else◌, string_eq, ◌==◌}
use omnicatena.Base.Bytes.{Bytes, codes, hex_encode}
use omnicatena.Base.Exec.{Exec, attempt, fail, lift, pure, wrapped, ◌>>=◌, ◌>>◌}
use omnicatena.Base.Int.{bits64, ltb_ℤ, pos, wrap64, ℤ}
use omnicatena.Base.Map.{Map, lookup}
use omnicatena.Base.Result.{Result, err, errorf, int, ok, str, wrapf}
use omnicatena.Domain.{
  Address, Amount, Asset, FeeEstimate, SignedTx, Transaction, TransferRequest, TxStatus, UnsignedTx,
  bare_transaction, base_of, chain_tron, confirmed, failed, no_account, pending, unknown,
}

abbrev pub native_trx : Asset
native_trx = record { symbol = "TRX"; decimals = 6; native = true; contract_address = "" }

-- What the adapter calls of base58: CheckEncode and CheckDecode, of the bytes and the version.
pub record Base58 : Type 0 where
  pub check_encode : Bytes → ℕ → Address
  pub check_decode : Address → Result (Bytes × ℕ)

-- The fields of a request's body.
pub data Field : Type 0 where
  text_field : String → Field
  hex_field : Bytes → Field
  number_field : ℤ → Field
  flag_field : Bool → Field

-- The struct into which GetTransaction reads a transaction's info.
pub record Info : Type 0 where
  pub block_number : ℤ
  pub receipt_result : String

-- The zero value of `info`.
abbrev pub no_info : Info
no_info = record { block_number = pos 0; receipt_result = "" }

pub record BroadcastAnswer : Type 0 where
  pub result : Bool
  pub code : String
  pub message : String

-- encoding/json at the types that the adapter uses; a json.RawMessage is its bytes. `read_error` is
-- the field Error.
pub record Json : Type 0 where
  pub marshal : Map String Field → Result Bytes
  pub read_balance : Bytes → Result ℤ
  pub read_raw : Bytes → Result Bytes
  pub read_error : Bytes → Result String
  pub read_fields : Bytes → Result (Map String Bytes)
  pub read_text : Bytes → Result Bytes
  pub read_broadcast : Bytes → Result BroadcastAnswer
  pub read_info : Bytes → Result Info
  pub write_texts : List Bytes → Bytes
  pub write_fields : Map String Bytes → Result Bytes

pub record HttpResponse : Type 0 where
  pub status_code : ℕ
  pub body : Bytes

-- `send` makes a request by its URL and body (http.NewRequestWithContext and Client.Do).
pub record Node (S : Type 0) : Type 0 where
  pub rpc_url : String
  pub send : String → String → Bytes → Exec S HttpResponse

-- toHexAddr
unfoldable pub to_hex_addr : Base58 → Address → Result Bytes
to_hex_addr b addr = elim (b.check_decode addr) [
  | err e ↦ err (wrapf "tron: bad address %s: %w" (str addr ∷ []) e)
  | ok (raw, ver) ↦ ok (hex_encode (ver ∷ []) ++ hex_encode raw)
]

unfoldable pub estimate_fee : TransferRequest → FeeEstimate
estimate_fee req = record {
  speed = req.speed;
  total = record { asset = native_trx; base = some (pos 268000) };
  params = ("bandwidth_bytes", codes "268") ∷ ("bandwidth_price", codes "1000") ∷ [];
}

-- The status of a transaction that the node knows.
abbrev pub status_of : Info → TxStatus
status_of info =
    if ltb_ℤ (pos 0) info.block_number
    then (if info.receipt_result == "FAILED" then failed else confirmed)
    else pending

-- `_ = a.post(…, &info)`: an error leaves the zero value.
abbrev pub info_or_none : Result Info → Info
info_or_none (ok info) = info
info_or_none (err _) = no_info

module _ {S : Type 0} (b : Base58) (j : Json) (node : Node S) where
  -- the status check and the decoding of postRaw
  checked : {A : Type 0} → (Bytes → Result A) → HttpResponse → Result A
  checked read response =
      if eqb response.status_code 200
      then read response.body
      else err (errorf "http %d" (int (pos response.status_code) ∷ []))

  unfoldable pub post_raw : {A : Type 0} → String → Bytes → (Bytes → Result A) → Exec S A
  unfolding checked
  post_raw path body read = do
    response ← node.send node.rpc_url path body
    lift (checked read response)

  unfoldable pub post : {A : Type 0} → String → Map String Field → (Bytes → Result A) → Exec S A
  post path body read = do raw ← lift (j.marshal body); post_raw path raw read

  unfoldable pub balance : Address → Asset → Exec S Amount
  balance addr asset = do
    hex ← lift (to_hex_addr b addr)
    sun ← wrapped "tron: balance: %w" [] (
        post "/wallet/getaccount" (("address", hex_field hex) ∷ ("visible", flag_field false) ∷ [])
          j.read_balance)
    pure (record { asset = native_trx; base = some sun })

  abbrev pub create_body : Bytes → Bytes → ℤ → Map String Field
  create_body from_hex to_hex amount =
      ("owner_address", hex_field from_hex)
      ∷ ("to_address", hex_field to_hex)
      ∷ ("amount", number_field (wrap64 amount))
      ∷ ("visible", flag_field false)
      ∷ []

  -- The node answers with an Error field where it refuses the contract.
  unfoldable pub refused_or : Bytes → Result String → Result Bytes
  refused_or raw (err _) = ok raw
  refused_or raw (ok message) =
      if message == "" then ok raw else err (errorf "tron: create tx: %s" (str message ∷ []))

  unfoldable pub build_transfer : TransferRequest → Exec S UnsignedTx
  unfolding refused_or
  build_transfer req = do
    from_hex ← lift (to_hex_addr b req.source)
    to_hex ← lift (to_hex_addr b req.dest)
    amount ← lift (base_of req.amount)
    raw ←
        wrapped "tron: create tx: %w" []
          (post "/wallet/createtransaction" (create_body from_hex to_hex amount) j.read_raw)
    payload ← lift (refused_or raw (j.read_error raw))
    let utx : UnsignedTx = record {
      chain = chain_tron;
      signing_account = no_account;
      request = req;
      fee = estimate_fee req;
      payload = payload;
    }
    pure utx

  unfoldable pub broadcast : SignedTx → Exec S String
  broadcast tx =
      wrapped "tron: broadcast: %w" []
        (post_raw "/wallet/broadcasttransaction" tx.raw j.read_broadcast)
      >>= λ answer.
          if answer.result
          then pure tx.hash
          else fail
              (errorf "tron: broadcast failed: %s %s" (str answer.code ∷ str answer.message ∷ []))

  -- `len(txResp) == 0 || txResp["txID"] == nil`
  abbrev pub is_missing : Map String Bytes → Bool
  is_missing fields = elim (lookup "txID" fields) [ none ↦ true | some _ ↦ false ]

  unfoldable pub get_transaction : String → Exec S Transaction
  get_transaction hash =
      wrapped "tron: get tx: %w" []
        (post "/wallet/gettransactionbyid" (("value", text_field hash) ∷ []) j.read_fields)
      >>= λ fields. elim (is_missing fields) [
        | true ↦ pure (bare_transaction chain_tron hash unknown)
        | false ↦
            attempt
              (post "/wallet/gettransactioninfobyid" (("value", text_field hash) ∷ []) j.read_info)
            >>= λ answer.
                let info = info_or_none answer in
                pure (record (bare_transaction chain_tron hash (status_of info)) {
                  block_height = bits64 info.block_number;
                })
      ]
