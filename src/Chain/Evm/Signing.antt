-- ===== src/Chain/Evm/Signing.antt =====
-- DeriveAccount and Sign of internal/adapter/chain/evm/adapter.go.
use mathlib.Core.List.{[]}
use omnicatena.Base.Bytes.{Bytes}
use omnicatena.Base.Result.{Result, ok, wrap, ◌>>=◌}
use omnicatena.Chain.Evm.Transfer.{EthTypes}
use omnicatena.Domain.{Account, Address, ChainId, SignedTx, UnsignedTx}
use omnicatena.HdWallet.Curve.{Secp256k1}
use omnicatena.HdWallet.Derive.{Bip32, derive_key}
use omnicatena.Port.{Signer}

-- `pubkey_to_hex` is the text of crypto.PubkeyToAddress for a private key's public key.
unfoldable pub derive_account :
    {Key Priv : Type 0}
    → Bip32 Key
    → Secp256k1 Key Priv
    → (Priv → Address)
    → ChainId
    → Bytes
    → Bytes
    → Result Account
derive_account bip32 curve pubkey_to_hex chain seed path = do
  key ← derive_key bip32 seed path
  priv ← wrap "evm: ec priv key: %w" [] (curve.ec_priv_key key)
  ok (record { chain = chain; address = pubkey_to_hex priv; path = path })

module _ {EthAddress Tx Hash : Type 0} (e : EthTypes EthAddress Tx Hash) (chain : ChainId) where
  unfoldable pub sign : UnsignedTx → Signer → Result SignedTx
  sign utx signer = do
    tx ← wrap "evm: unmarshal tx: %w" [] (e.unmarshal_binary utx.payload)
    sig ← wrap "evm: sign: %w" [] (signer.sign utx.signing_account (e.signing_hash tx))
    signed ← wrap "evm: attach signature: %w" [] (e.with_signature tx sig)
    raw ← wrap "evm: marshal signed tx: %w" [] (e.marshal_binary signed)
    ok (record { chain = chain; raw = raw; hash = e.hash_hex signed })
