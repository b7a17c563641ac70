-- ===== src/Chain/Solana.antt =====
-- internal/adapter/chain/solana/adapter.go.
pub mod Signing
pub mod Laws
use Prim.Native.Nat.{suc, zero, ℕ, ◌%◌, ◌+◌, ◌^◌}
use Prim.Native.String.{String}
use mathlib.Core.Bool.{Bool, true}
use mathlib.Core.List.{List, [], ◌++◌, ◌∷◌}
use mathlib.Core.Option.{Option, none, some}
use omnicatena.Base.{if◌then◌else◌, take}
use omnicatena.Base.Bytes.{Bytes, codes}
use omnicatena.Base.Exec.{Exec, attempt, fail, lift, pure, wrapped, ◌>>=◌, ◌>>◌}
use omnicatena.Base.Int.{neg_part, pos, pos_part, ℤ}
use omnicatena.Base.Result.{Result, err, is_error, ok, sentinel, str, wrapf}
use omnicatena.Domain.{
  Account, Address, Amount, Asset, FeeEstimate, SignedTx, Transaction, TransferRequest, UnsignedTx,
  bare_transaction, base_of, chain_solana, confirmed, failed, no_account, unknown,
}
use omnicatena.HdWallet.Curve.{Ed25519}
use omnicatena.HdWallet.Derive.{derive_key_ed25519}

abbrev pub native_sol : Asset
native_sol = record { symbol = "SOL"; decimals = 9; native = true; contract_address = "" }

abbrev pub base_fee : ℕ
base_fee = 5000

-- What the adapter calls of solana-go. A signature is its 64 bytes.
pub record SolanaGo (PublicKey Hash Instruction Tx : Type 0) : Type 0 where
  -- PublicKeyFromBytes(pub).String()
  pub key_text : Bytes → Address
  pub public_key_from_base58 : Address → Result PublicKey
  pub transfer_instruction : ℕ → PublicKey → PublicKey → Instruction
  -- NewTransaction(instructions, blockhash, TransactionPayer(payer))
  pub new_transaction : List Instruction → Hash → PublicKey → Result Tx
  pub marshal_binary : Tx → Result Bytes
  pub transaction_from_decoder : Bytes → Result Tx
  pub marshal_message : Tx → Result Bytes
  pub with_signatures : Tx → List Bytes → Tx
  pub signature_text : Bytes → String
  pub signature_from_base58 : String → Result Bytes

-- A transaction's result; `meta` is nil where the node has no status of it.
pub record Meta : Type 0 where
  pub is_error : Bool
  pub fee : ℕ

pub record TransactionResult : Type 0 where
  pub slot : ℕ
  pub meta : Option Meta

pub record SolanaRpc (S PublicKey Hash Tx : Type 0) : Type 0 where
  pub get_balance : PublicKey → Exec S ℕ
  pub get_latest_blockhash : Exec S Hash
  pub send_transaction : Tx → Exec S Bytes
  pub get_transaction : Bytes → Exec S TransactionResult

-- `z.Uint64()`: the low 64 bits of the absolute value.
abbrev pub uint64_of : ℤ → ℕ
uint64_of z = (pos_part z + neg_part z) % 2 ^ 64

abbrev pub zeros : ℕ → Bytes
zeros zero = []
zeros (suc n) = 0 ∷ zeros n

-- `var solSig solanago.Signature; copy(solSig[:], sig)`
unfoldable pub signature_of : Bytes → Bytes
signature_of sig = take 64 (sig ++ zeros 64)

-- The answer of GetTransaction for a hash that the node knows; a nil `meta` panics.
unfoldable pub status_of : String → TransactionResult → Result Transaction
status_of hash result = elim result.meta [
  | none ↦ err (sentinel "nil pointer dereference")
  | some meta ↦
      if meta.is_error
      then ok (bare_transaction chain_solana hash failed)
      else ok (record (bare_transaction chain_solana hash confirmed) {
        block_height = result.slot;
        fee = record { asset = native_sol; base = some (pos meta.fee) };
      })
]

unfoldable pub estimate_fee : TransferRequest → FeeEstimate
estimate_fee req = record {
  speed = req.speed;
  total = record { asset = native_sol; base = some (pos base_fee) };
  params = ("lamports", codes "5000") ∷ [];
}

module _ {PublicKey Hash Instruction Tx : Type 0}
    (go : SolanaGo PublicKey Hash Instruction Tx) where
  unfoldable pub derive_account :
      {EdKey : Type 0} → (Bytes → Bytes → Bytes) → Ed25519 EdKey → Bytes → Bytes → Result Account
  derive_account hmac ed seed path = elim (derive_key_ed25519 hmac seed path) [
    | err e ↦ err e
    | ok key_seed ↦ ok (record {
      chain = chain_solana;
      address = go.key_text (ed.public (ed.new_key_from_seed key_seed));
      path = path;
    })
  ]

  module _ {S : Type 0} (rpc : SolanaRpc S PublicKey Hash Tx) where
    unfoldable pub balance : Address → Asset → Exec S Amount
    balance addr asset = do
      pk ←
          wrapped "solana: invalid address %s: %w" (str addr ∷ [])
            (lift (go.public_key_from_base58 addr))
      lamports ← wrapped "solana: balance %s: %w" (str addr ∷ []) (rpc.get_balance pk)
      pure (record { asset = native_sol; base = some (pos lamports) })

    unfoldable pub build_transfer : TransferRequest → Exec S UnsignedTx
    build_transfer req = do
      source ←
          wrapped "solana: invalid from address: %w" []
            (lift (go.public_key_from_base58 req.source))
      dest ← wrapped "solana: invalid to address: %w" [] (lift (go.public_key_from_base58 req.dest))
      blockhash ← wrapped "solana: get blockhash: %w" [] rpc.get_latest_blockhash
      amount ← lift (base_of req.amount)
      tx ← wrapped "solana: build tx: %w" [] (
          lift (
            go.new_transaction (go.transfer_instruction (uint64_of amount) source dest ∷ [])
              blockhash source))
      payload ← wrapped "solana: serialize tx: %w" [] (lift (go.marshal_binary tx))
      let utx : UnsignedTx = record {
        chain = chain_solana;
        signing_account = no_account;
        request = req;
        fee = estimate_fee req;
        payload = payload;
      }
      pure utx

    unfoldable pub broadcast : SignedTx → Exec S String
    broadcast stx = do
      tx ← wrapped "solana: decode signed tx: %w" [] (lift (go.transaction_from_decoder stx.raw))
      sig ← wrapped "solana: broadcast: %w" [] (rpc.send_transaction tx)
      pure (go.signature_text sig)

    unfoldable pub get_transaction : String → Exec S Transaction
    get_transaction hash =
        wrapped "solana: invalid signature %s: %w" (str hash ∷ [])
          (lift (go.signature_from_base58 hash))
        >>= λ sig. attempt (rpc.get_transaction sig) >>= λ r. elim r [
          | err e ↦
              if is_error e "ErrNotFound"
              then pure (bare_transaction chain_solana hash unknown)
              else fail (wrapf "solana: get tx %s: %w" (str hash ∷ []) e)
          | ok result ↦ lift (status_of hash result)
        ]
