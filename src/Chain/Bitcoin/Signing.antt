-- ===== src/Chain/Bitcoin/Signing.antt =====
-- DeriveAccount and Sign of internal/adapter/chain/bitcoin/adapter.go.
pub mod Laws
use Prim.Native.Nat.{suc, zero, ℕ, ◌+◌}
use mathlib.Core.List.{List, [], ◌++◌, ◌∷◌}
use mathlib.Core.Option.{Option, none, some}
use omnicatena.Base.{get_elem?, length}
use omnicatena.Base.Bytes.{Bytes}
use omnicatena.Base.Int.{pos}
use omnicatena.Base.Result.{Result, err, int, ok, sentinel, wrap, ◌>>=◌, ◌>>◌}
use omnicatena.Chain.Bitcoin.Client.{Btcd}
use omnicatena.Domain.{Account, SignedTx, UnsignedTx, account, chain_bitcoin}
use omnicatena.HdWallet.Curve.{Secp256k1}
use omnicatena.HdWallet.Derive.{Bip32, derive_key}
use omnicatena.Port.{Signer}

module _ {F Tx Hash Addr : Type 0} (b : Btcd F Tx Hash Addr) where
  unfoldable pub derive_account :
      {Key Priv : Type 0} → Bip32 Key → Secp256k1 Key Priv → Bytes → Bytes → Result Account
  derive_account bip32 curve seed path = do
    key ← derive_key bip32 seed path
    pub_key ← wrap "bitcoin: ec pub key: %w" [] (curve.ec_pub_key key)
    addr ← wrap "bitcoin: derive address: %w" [] (b.hash160_address pub_key)
    ok (record { chain = chain_bitcoin; address = b.encode_address addr; path = path })

  -- p.ScriptPubKeys[i] panics out of range
  script_at : List Bytes → ℕ → Result Bytes
  script_at scripts i = elim (get_elem? scripts i) [
    | none ↦ err (sentinel "index out of range")
    | some script ↦ ok script
  ]

  -- The loop over the inputs, of which `left` are left, from the one of index `i`.
  sign_inputs : Signer → Account → List Bytes → Bytes → ℕ → ℕ → Tx → Result Tx
  sign_inputs signer account scripts pub_key zero i tx = ok tx
  sign_inputs signer account scripts pub_key (suc left) i tx = do
    script ← script_at scripts i
    sig_hash ←
        wrap "bitcoin: sig hash input %d: %w" (int (pos i) ∷ []) (b.calc_signature_hash script tx i)
    sig ← wrap "bitcoin: sign input %d: %w" (int (pos i) ∷ []) (signer.sign account sig_hash)
    script_sig ←
        wrap "bitcoin: build scriptsig input %d: %w" (int (pos i) ∷ [])
          (b.signature_script (sig ++ 1 ∷ []) pub_key)
    sign_inputs signer account scripts pub_key left (i + 1) (b.set_signature_script tx i script_sig)

  unfoldable pub sign : UnsignedTx → Signer → Result SignedTx
  unfolding sign_inputs script_at
  sign utx signer = do
    p ← wrap "bitcoin: unmarshal payload: %w" [] (b.unmarshal_payload utx.payload)
    tx ← wrap "bitcoin: deserialize tx: %w" [] (b.deserialize p.raw_tx)
    pub_key ← wrap "bitcoin: get pubkey: %w" [] (signer.public_key utx.signing_account)
    signed ←
        sign_inputs signer utx.signing_account p.script_pub_keys pub_key (length (b.tx_in tx)) 0 tx
    raw ← wrap "bitcoin: serialize signed tx: %w" [] (b.serialize signed)
    ok (record { chain = chain_bitcoin; raw = raw; hash = b.hash_string (b.tx_hash signed) })
