-- ===== src/Chain/Solana/Laws.antt =====
-- What BuildTransfer of internal/adapter/chain/solana/adapter.go pays.
use mathlib.Core.List.{[], ◌∷◌}
use mathlib.Core.Option.{some}
use mathlib.Core.Path.{ap, sym, ◌∙◌, ◌≡◌}
use omnicatena.Base.Bytes.{Bytes}
use omnicatena.Base.Exec.{call-inv, lift-inv, pure-inv}
use omnicatena.Base.Int.{pos, ℤ}
use omnicatena.Base.Result.{ok}
use omnicatena.Chain.Solana.{SolanaGo, SolanaRpc, build_transfer, estimate_fee, uint64_of}
use omnicatena.Domain.{TransferRequest, UnsignedTx, base_of, base_of-inv, chain_solana, no_account}

module _ {S PublicKey Hash Instruction Tx : Type 0} (go : SolanaGo PublicKey Hash Instruction Tx)
    (rpc : SolanaRpc S PublicKey Hash Tx) where
  -- The transaction of a transfer: `lamports` from `source` to `dest`, paid for by `source`.
  pub record IsPayment (req : TransferRequest) (utx : UnsignedTx) (s t : S) : Type 0 where
    pub source : PublicKey
    pub dest : PublicKey
    pub blockhash : Hash
    pub amount : ℤ
    pub tx : Tx
    pub from_read : go.public_key_from_base58 req.source ≡ ok source
    pub to_read : go.public_key_from_base58 req.dest ≡ ok dest
    pub fresh : rpc.get_latest_blockhash s ≡ (ok blockhash, t)
    pub asked : req.amount.base ≡ some amount
    pub made :
        go.new_transaction
          (go.transfer_instruction (uint64_of amount) source dest ∷ [])
          blockhash
          source
        ≡ ok tx
    pub carried : go.marshal_binary tx ≡ ok utx.payload
    pub same_request : utx.request ≡ req
    pub fee : utx.fee.total.base ≡ some (pos 5000)

  -- A transfer that is built carries one instruction, which pays the absolute value of the request's
  -- amount modulo 2^64 from its sender to its recipient, with the latest block's hash; the fee that
  -- it tells is 5000 lamports.
  pub build_transfer_pays :
      (req : TransferRequest) (utx : UnsignedTx) (s t : S)
      → build_transfer go rpc req s ≡ (ok utx, t)
      → IsPayment req utx s t
  unfolding build_transfer estimate_fee
  build_transfer_pays req utx s t h =
      pure-inv "solana: invalid from address: %w" [] (go.public_key_from_base58 req.source) _ h
        λ source e1 h1.
          pure-inv "solana: invalid to address: %w" [] (go.public_key_from_base58 req.dest) _ h1
            λ dest e2 h2.
              call-inv "solana: get blockhash: %w" [] rpc.get_latest_blockhash _ h2
                λ blockhash u e3 h3. lift-inv (base_of req.amount) _ h3 λ amount e4 h4.
                  pure-inv "solana: build tx: %w" []
                    (go.new_transaction
                      (go.transfer_instruction (uint64_of amount) source dest ∷ []) blockhash
                      source)
                    _ h4
                    λ tx e5 h5.
                      pure-inv "solana: serialize tx: %w" [] (go.marshal_binary tx) _ h5
                        λ payload e6 h6.
                          let last : u ≡ t = cc in
                          let whole : built req payload ≡ utx = cc in
                          record {
                            source = source;
                            dest = dest;
                            blockhash = blockhash;
                            amount = amount;
                            tx = tx;
                            from_read = e1;
                            to_read = e2;
                            fresh = rw (← last) e3;
                            asked = base_of-inv req.amount e4;
                            made = e5;
                            carried = e6 ∙ ap (λ (x : UnsignedTx). ok x.payload) whole;
                            same_request = ap (λ (x : UnsignedTx). x.request) (sym whole);
                            fee = ap (λ (x : UnsignedTx). x.fee.total.base) (sym whole);
                          }
    where
      built : TransferRequest → Bytes → UnsignedTx
      built r payload = record {
        chain = chain_solana;
        signing_account = no_account;
        request = r;
        fee = estimate_fee r;
        payload = payload;
      }
