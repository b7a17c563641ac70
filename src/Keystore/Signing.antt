-- ===== src/Keystore/Signing.antt =====
-- `memSigner` of internal/adapter/keystore/signer.go.
use mathlib.Core.Bool.{false, true}
use omnicatena.Base.{if◌then◌else◌, string_eq, ◌==◌}
use omnicatena.Base.Bytes.{Bytes}
use omnicatena.Base.Result.{Result, ok, ◌>>=◌}
use omnicatena.Domain.{Account, ChainId, account, chain_bitcoin, chain_solana}
use omnicatena.HdWallet.Curve.{Ed25519, Secp256k1}
use omnicatena.HdWallet.Derive.{Bip32, derive_key, derive_key_ed25519}
use omnicatena.Port.{Signer}

module _ {Key Priv EdKey : Type 0} (hmac : Bytes → Bytes → Bytes) (bip32 : Bip32 Key)
    (curve : Secp256k1 Key Priv) (ed : Ed25519 EdKey) where
  derive_ed25519_key : Bytes → Bytes → Result EdKey
  derive_ed25519_key seed path = do
    key_seed ← derive_key_ed25519 hmac seed path
    ok (ed.new_key_from_seed key_seed)

  derive_priv_key : Bytes → Bytes → Result Priv
  derive_priv_key seed path = do key ← derive_key bip32 seed path; curve.ec_priv_key key

  sign_ecdsa : ChainId → Priv → Bytes → Result Bytes
  sign_ecdsa chain priv digest =
      if chain == chain_bitcoin then ok (curve.sign_der priv digest) else curve.sign_rsv digest priv

  unfoldable pub sign_for : Bytes → Account → Bytes → Result Bytes
  unfolding derive_ed25519_key derive_priv_key sign_ecdsa
  sign_for seed account digest = elim (account.chain == chain_solana) [
    | true ↦ derive_ed25519_key seed account.path >>= λ priv. ok (ed.sign priv digest)
    | false ↦ derive_priv_key seed account.path >>= λ priv. sign_ecdsa account.chain priv digest
  ]

  unfoldable pub public_key_for : Bytes → Account → Result Bytes
  unfolding derive_ed25519_key derive_priv_key
  public_key_for seed account = elim (account.chain == chain_solana) [
    | true ↦ derive_ed25519_key seed account.path >>= λ priv. ok (ed.public priv)
    | false ↦ derive_priv_key seed account.path >>= λ priv. ok (curve.compressed priv)
  ]

  abbrev pub mem_signer : Bytes → Signer
  mem_signer seed = record { sign = sign_for seed; public_key = public_key_for seed }
