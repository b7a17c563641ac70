-- ===== src/Chain/Tron/Laws.antt =====
-- What the adapter of internal/adapter/chain/tron/adapter.go asks of the node and signs.
use Prim.Native.Nat.{ℕ}
use Prim.Native.String.{String}
use mathlib.Core.Bool.{false}
use mathlib.Core.List.{[], ◌++◌, ◌∷◌}
use mathlib.Core.Logic.{inl, inr, ◌≢◌}
use mathlib.Core.Option.{Option, none, some}
use mathlib.Core.Path.{ap, ap₂, refl, subst, sym, ◌∙◌, ◌≡◌}
use native.Mathlib.Omega.{arith}
use omnicatena.Base.{==_false, Bool-cases, string_eq, ◌==◌}
use omnicatena.Base.Bytes.{Bytes, codes, hex_decode, hex_encode}
use omnicatena.Base.Exec.{call-inv, lift-inv}
use omnicatena.Base.Int.{pos, wrap64, ℤ}
use omnicatena.Base.Map.{Map, insert, lookup, lookup-insert}
use omnicatena.Base.Result
use omnicatena.Base.Result.{
  >>=-inv, Error, Result, err, errorf, int, ok, sentinel, str, wrap-inv, wrapf,
}
use omnicatena.Chain.Tron.{
  Base58, Json, Node, build_transfer, create_body, estimate_fee, flag_field, hex_field,
  number_field, post, refused_or, to_hex_addr,
}
use omnicatena.Chain.Tron.Requests.{IsHexOf, Posts, post-Posts, to_hex_addr-IsHexOf}
use omnicatena.Chain.Tron.Signing.{decode_hex, derive_account, field_of, sign}
use omnicatena.Domain.{
  Account, SignedTx, TransferRequest, UnsignedTx, base_of, base_of-inv, chain_tron, no_account,
}
use omnicatena.HdWallet.Curve.{Secp256k1}
use omnicatena.HdWallet.Derive.{Bip32, derive_key}
use omnicatena.Port.{Signer}

-- What base58 documents: a text that was encoded is decoded to its bytes and its version.
pub record IsCheck (b : Base58) : Type 0 where
  pub decode-encode :
      (raw : Bytes) (ver : ℕ) → b.check_decode (b.check_encode raw ver) ≡ ok (raw, ver)

-- A written object is read back with its fields, and no text is read from no bytes.
pub record IsJson (j : Json) : Type 0 where
  pub read_text-nil : (e : Error) × (j.read_text [] ≡ err e)
  pub read-write :
      (fields : Map String Bytes) (raw : Bytes)
      → j.write_fields fields ≡ ok raw
      → (read : Map String Bytes) × (j.read_fields raw ≡ ok read)
        × ((name : String) → lookup name read ≡ lookup name fields)

-- The address of an account that is derived is sent to the node as 41 and the 20 bytes of the key's
-- Ethereum address, in hexadecimal.
pub to_hex_addr-derive_account :
    {Key Priv : Type 0} (b : Base58) (bip32 : Bip32 Key) (curve : Secp256k1 Key Priv)
    (pubkey_to_address : Priv → Bytes)
    → IsCheck b
    → (seed path : Bytes) (acc : Account)
    → derive_account b bip32 curve pubkey_to_address seed path ≡ ok acc
    → (key : Key) × (priv : Priv) × (derive_key bip32 seed path ≡ ok key)
      × (curve.ec_priv_key key ≡ ok priv)
      × (to_hex_addr b acc.address ≡ ok (codes "41" ++ hex_encode (pubkey_to_address priv)))
unfolding derive_account to_hex_addr hex_encode
to_hex_addr-derive_account b bip32 curve pubkey_to_address check seed path acc h =
    Result.>>=-inv (derive_key bip32 seed path) _ h λ key e1 h1.
      Result.wrap-inv "tron: ec priv key: %w" [] (curve.ec_priv_key key) _ h1 λ priv e2 h2.
        let raw = pubkey_to_address priv in
        let e : b.check_encode raw 65 ≡ acc.address =
          ap (λ (x : Result Account). elim x [ ok y ↦ y.address | err _ ↦ acc.address ]) h2 in
        (key, priv, e1, e2, rw (← e) (rw (to_hex_addr, check.decode-encode raw 65) refl))

module _ {S : Type 0} (b : Base58) (j : Json) (node : Node S) where
  refused_or-inv :
      (raw : Bytes) (r : Result String) {payload : Bytes}
      → refused_or b j node raw r ≡ ok payload
      → (payload ≡ raw) × ((message : String) → r ≡ ok message → message ≡ "")
  unfolding refused_or
  refused_or-inv raw (err e) h = (cc, λ message k. absurd (cc))
  refused_or-inv raw (ok m) h = elim (Bool-cases (m == "")) [
    | inl e ↦
        (ground (arith, e), λ message k. subst (λ x. x ≡ "") (cc) ((string_eq.beq_iff m "").0 e))
    | inr e ↦ absurd (ground (arith, e))
  ]

  -- A transfer that is built is the answer, of status 200, of the node to /wallet/createtransaction with
  -- the hexadecimal digits of the request's sender as the owner's address, those of its recipient as the
  -- address to pay to, and its amount, wrapped to 64 bits; the answer has no message of an error in it,
  -- and the fee that the transfer tells is 268000 sun.
  pub build_transfer_asks :
      (req : TransferRequest) (utx : UnsignedTx) (s t : S)
      → build_transfer b j node req s ≡ (ok utx, t)
      → (from_hex : Bytes) × (to_hex : Bytes) × (amount : ℤ) × IsHexOf b req.source from_hex
        × IsHexOf b req.dest to_hex
        × (req.amount.base ≡ some amount)
        × Posts j node "/wallet/createtransaction"
            (("owner_address", hex_field from_hex)
              ∷ ("to_address", hex_field to_hex)
              ∷ ("amount", number_field (wrap64 amount))
              ∷ ("visible", flag_field false)
              ∷ [])
            j.read_raw
            utx.payload
            s
            t
        × ((message : String) → j.read_error utx.payload ≡ ok message → message ≡ "")
        × (utx.fee.total.base ≡ some (pos 268000))
        × (utx.request ≡ req)
  unfolding build_transfer estimate_fee
  build_transfer_asks req utx s t h = lift-inv (to_hex_addr b req.source) _ h λ from_hex e1 h1.
      lift-inv (to_hex_addr b req.dest) _ h1 λ to_hex e2 h2.
        lift-inv (base_of req.amount) _ h2 λ amount e3 h3.
          call-inv "tron: create tx: %w" []
            (post b j node "/wallet/createtransaction" (create_body b j node from_hex to_hex amount)
              j.read_raw)
            _ h3
            λ raw u e4 h4.
              lift-inv (refused_or b j node raw (j.read_error raw)) _ h4 λ payload e5 h5.
                let (carried, clean) = refused_or-inv raw (j.read_error raw) e5 in
                let whole : built req payload ≡ utx = cc in
                let last : u ≡ t = cc in
                let named : raw ≡ utx.payload =
                  sym carried ∙ ap (λ (x : UnsignedTx). x.payload) whole in
                (
                  from_hex,
                  to_hex,
                  amount,
                  to_hex_addr-IsHexOf b req.source from_hex e1,
                  to_hex_addr-IsHexOf b req.dest to_hex e2,
                  base_of-inv req.amount e3,
                  post-Posts b j node "/wallet/createtransaction"
                      (create_body b j node from_hex to_hex amount) j.read_raw utx.payload s t
                      (e4 ∙ ap₂ (λ x y. (ok x, y)) named last),
                  λ message e. clean message (ap j.read_error named ∙ e),
                  ap (λ (x : UnsignedTx). x.fee.total.base) (sym whole),
                  ap (λ (x : UnsignedTx). x.request) (sym whole),
                )
    where
      built : TransferRequest → Bytes → UnsignedTx
      built r payload = record {
        chain = chain_tron;
        signing_account = no_account;
        request = r;
        fee = estimate_fee r;
        payload = payload;
      }

decode_hex-inv : (s : Bytes) {raw : Bytes} → decode_hex s ≡ ok raw → hex_decode s ≡ some raw
decode_hex-inv s {raw} h = go (hex_decode s) h
  where
    go :
        (o : Option Bytes)
        → ◌≡◌ {A = Result Bytes}
            (elim o [ none ↦ err (sentinel "hex: invalid") | some r ↦ ok r ])
            (ok raw)
        → o ≡ some raw
    go none e = absurd (cc)
    go (some r) e = cc

field_of-inv :
    (j : Json) (name : String) (fields : Map String Bytes) (text : Bytes)
    → IsJson j
    → j.read_text (field_of name fields) ≡ ok text
    → (raw : Bytes) × (lookup name fields ≡ some raw) × (j.read_text raw ≡ ok text)
field_of-inv j name fields text law h = go (lookup name fields) refl h
  where
    go :
        (o : Option Bytes)
        → lookup name fields ≡ o
        → j.read_text (elim o [ none ↦ [] | some raw ↦ raw ]) ≡ ok text
        → (raw : Bytes) × (lookup name fields ≡ some raw) × (j.read_text raw ≡ ok text)
    go none e k = absurd (let (_, bad) = law.read_text-nil in cc)
    go (some raw) e k = (raw, e, k)

pub sign_keeps_fields :
    (j : Json) (to_text : Bytes → String)
    → IsJson j
    → (utx : UnsignedTx) (signer : Signer) (stx : SignedTx) → sign j to_text utx signer ≡ ok stx
    → (fields : Map String Bytes) × (sent : Map String Bytes) × (id_field : Bytes) × (tx_id : Bytes)
      × (digest : Bytes) × (sig : Bytes) × (j.read_fields utx.payload ≡ ok fields)
      × (lookup "txID" fields ≡ some id_field)
      × (j.read_text id_field ≡ ok tx_id)
      × (j.read_fields stx.raw ≡ ok sent)
      × (hex_decode tx_id ≡ some digest)
      × (signer.sign utx.signing_account digest ≡ ok sig)
      × (stx.hash ≡ to_text tx_id)
      × (lookup "signature" sent ≡ some (j.write_texts (hex_encode sig ∷ [])))
      × ((name : String) → "signature" ≢ name → lookup name sent ≡ lookup name fields)
unfolding sign
sign_keeps_fields j to_text law utx signer stx h =
    Result.wrap-inv "tron: parse tx: %w" [] (j.read_fields utx.payload) _ h λ fields e1 h1.
      Result.wrap-inv "tron: parse txID: %w" [] (j.read_text (field_of "txID" fields)) _ h1
        λ tx_id e2 h2.
          Result.wrap-inv "tron: decode txID: %w" [] (decode_hex tx_id) _ h2 λ digest e3 h3.
            Result.wrap-inv "tron: sign: %w" [] (signer.sign utx.signing_account digest) _ h3
              λ sig e4 h4.
                let entry = j.write_texts (hex_encode sig ∷ []) in
                Result.wrap-inv "tron: marshal signed tx: %w" []
                  (j.write_fields (insert "signature" entry fields)) _ h4
                  λ raw e5 h5.
                    let (sent, read, same) =
                      law.read-write (insert "signature" entry fields) raw e5 in
                    let whole : made tx_id raw ≡ stx = cc in
                    let (id_field, there, text) = field_of-inv j "txID" fields tx_id law e2 in
                    (
                      fields,
                      sent,
                      id_field,
                      tx_id,
                      digest,
                      sig,
                      e1,
                      there,
                      text,
                      ap (λ (x : SignedTx). j.read_fields x.raw) (sym whole) ∙ read,
                      decode_hex-inv tx_id e3,
                      e4,
                      ap (λ (x : SignedTx). x.hash) (sym whole),
                      same "signature" ∙ lookup-insert "signature" "signature" entry fields,
                      λ name ne.
                          same name
                          ∙ lookup-insert "signature" name entry fields
                          ∙ rw (==_false "signature" name ne) refl,
                    )
  where
    made : Bytes → Bytes → SignedTx
    made tx_id raw = record { chain = chain_tron; raw = raw; hash = to_text tx_id }
