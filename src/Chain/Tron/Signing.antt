-- ===== src/Chain/Tron/Signing.antt =====
-- DeriveAccount and Sign of internal/adapter/chain/tron/adapter.go.
use Prim.Native.String.{String}
use mathlib.Core.List.{[], ◌∷◌}
use mathlib.Core.Option.{none, some}
use omnicatena.Base.{string_eq}
use omnicatena.Base.Bytes.{Bytes, hex_decode, hex_encode}
use omnicatena.Base.Map.{Map, insert, lookup}
use omnicatena.Base.Result.{Result, err, ok, sentinel, wrap, ◌>>=◌}
use omnicatena.Chain.Tron.{Base58, Json}
use omnicatena.Domain.{Account, SignedTx, UnsignedTx, chain_tron}
use omnicatena.HdWallet.Curve.{Secp256k1}
use omnicatena.HdWallet.Derive.{Bip32, derive_key}
use omnicatena.Port.{Signer}

-- `pubkey_to_address` is crypto.PubkeyToAddress of a private key's public key, by its bytes.
unfoldable pub derive_account :
    {Key Priv : Type 0}
    → Base58
    → Bip32 Key
    → Secp256k1 Key Priv
    → (Priv → Bytes)
    → Bytes
    → Bytes
    → Result Account
derive_account b bip32 curve pubkey_to_address seed path = do
  key ← derive_key bip32 seed path
  priv ← wrap "tron: ec priv key: %w" [] (curve.ec_priv_key key)
  let acc : Account = record {
    chain = chain_tron;
    address = b.check_encode (pubkey_to_address priv) 65;
    path = path;
  }
  ok acc

-- `tx["txID"]` as a text: a missing field is read as no bytes.
abbrev pub field_of : String → Map String Bytes → Bytes
field_of name fields = elim (lookup name fields) [ none ↦ [] | some raw ↦ raw ]

-- hex.DecodeString
abbrev pub decode_hex : Bytes → Result Bytes
decode_hex s = elim (hex_decode s) [ none ↦ err (sentinel "hex: invalid") | some raw ↦ ok raw ]

module _ (j : Json) (to_text : Bytes → String) where
  unfoldable pub sign : UnsignedTx → Signer → Result SignedTx
  sign utx signer = do
    fields ← wrap "tron: parse tx: %w" [] (j.read_fields utx.payload)
    tx_id ← wrap "tron: parse txID: %w" [] (j.read_text (field_of "txID" fields))
    digest ← wrap "tron: decode txID: %w" [] (decode_hex tx_id)
    sig ← wrap "tron: sign: %w" [] (signer.sign utx.signing_account digest)
    raw ←
        wrap "tron: marshal signed tx: %w" []
          (j.write_fields (insert "signature" (j.write_texts (hex_encode sig ∷ [])) fields))
    let stx : SignedTx = record { chain = chain_tron; raw = raw; hash = to_text tx_id }
    ok stx
