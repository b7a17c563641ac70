-- ===== src/HdWallet/Curve.antt =====
-- What the program calls of hdkeychain's keys, btcec, crypto/ecdsa and crypto/ed25519. `Key` is
-- hdkeychain.ExtendedKey, `Priv` is ecdsa.PrivateKey.
use mathlib.Core.Path.{◌≡◌}
use omnicatena.Base.Bytes.{Bytes}
use omnicatena.Base.Result.{Result, ok}

pub record Secp256k1 (Key Priv : Type 0) : Type 0 where
  -- ECPubKey, then SerializeCompressed
  pub ec_pub_key : Key → Result Bytes
  -- ECPrivKey, then ToECDSA
  pub ec_priv_key : Key → Result Priv
  -- of btcec.PrivKeyFromBytes of the number in 32 bytes: PubKey().SerializeCompressed(), and the
  -- DER text of btcecdsa.Sign
  pub compressed : Priv → Bytes
  pub sign_der : Priv → Bytes → Bytes
  -- go-ethereum's crypto.Sign
  pub sign_rsv : Bytes → Priv → Result Bytes

-- A key pair belongs together: the public key of an extended key is the one of its private key.
pub record IsPaired {Key Priv : Type 0} (curve : Secp256k1 Key Priv) : Type 0 where
  pub paired :
      (key : Key) (priv : Priv) (pub_key : Bytes)
      → curve.ec_priv_key key ≡ ok priv
      → curve.ec_pub_key key ≡ ok pub_key
      → curve.compressed priv ≡ pub_key

pub record Ed25519 (EdKey : Type 0) : Type 0 where
  pub new_key_from_seed : Bytes → EdKey
  pub sign : EdKey → Bytes → Bytes
  pub public : EdKey → Bytes
