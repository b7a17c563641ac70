-- ===== src/Chain/Solana/Signing.antt =====
-- Sign of internal/adapter/chain/solana/adapter.go.
use mathlib.Core.List.{[], ◌∷◌}
use omnicatena.Base.Result.{Result, ok, wrap, ◌>>=◌}
use omnicatena.Chain.Solana.{SolanaGo, signature_of}
use omnicatena.Domain.{SignedTx, UnsignedTx, chain_solana}
use omnicatena.Port.{Signer}

module _ {PublicKey Hash Instruction Tx : Type 0}
    (go : SolanaGo PublicKey Hash Instruction Tx) where
  unfoldable pub sign : UnsignedTx → Signer → Result SignedTx
  sign utx signer = do
    tx ← wrap "solana: decode tx: %w" [] (go.transaction_from_decoder utx.payload)
    message ← wrap "solana: marshal message: %w" [] (go.marshal_message tx)
    sig ← wrap "solana: sign: %w" [] (signer.sign utx.signing_account message)
    let signed = go.with_signatures tx (signature_of sig ∷ [])
    raw ← wrap "solana: marshal signed tx: %w" [] (go.marshal_binary signed)
    let stx : SignedTx = record {
      chain = chain_solana;
      raw = raw;
      hash = go.signature_text (signature_of sig);
    }
    ok stx
