-- ===== src/Chain/Evm/Transfer/Laws.antt =====
-- What BuildTransfer of internal/adapter/chain/evm/adapter.go builds.
use Prim.Native.Nat.{ℕ}
use mathlib.Core.List.{[]}
use mathlib.Core.Option.{Option, none, some}
use mathlib.Core.Path.{ap, ap₂, refl, subst, sym, ◌∙◌, ◌≡◌}
use omnicatena.Base.Exec.{bind-inv, lift, wrapped, wrapped-inv}
use omnicatena.Base.Int.{pos, ℤ, ◌*ℤ◌, ◌+ℤ◌}
use omnicatena.Base.Result.{ok}
use omnicatena.Chain.Evm.Fees.{
  Scaled, base_fee_of, estimate_from, max_fee_of, read_param-estimate_from, scale_tip,
  scale_tip-Scaled,
}
use omnicatena.Chain.Evm.Transfer.{
  DynamicFeeTx, EthClient, EthTypes, build_transfer, estimate_fee, transfer_tx,
}
use omnicatena.Domain.{ChainId, FeeEstimate, TransferRequest, UnsignedTx, no_account}

module _ {S EthAddress Tx Hash : Type 0} (e : EthTypes EthAddress Tx Hash)
    (client : EthClient S EthAddress Tx Hash) (chain : ChainId) (chain_id : ℤ) where
  -- A transfer of the request's amount with these numbers.
  abbrev pub expected : TransferRequest → ℕ → ℤ → ℤ → DynamicFeeTx EthAddress
  expected req nonce tip_cap fee_cap = record {
    chain_id = chain_id;
    nonce = nonce;
    gas_tip_cap = tip_cap;
    gas_fee_cap = fee_cap;
    gas = 21000;
    to = e.hex_to_address req.dest;
    value = req.amount.base;
  }

  -- The base fee of a header, 0 where it has none.
  abbrev pub told : Option ℤ → ℤ
  told none = pos 0
  told (some z) = z

  -- A transfer that is built pays the request's amount to its recipient, with the nonce that the node
  -- told for the sender, and 21000 as its gas. For a tip of the node that is not negative, the tip of the
  -- transfer is 15 tenths of it for fast, 8 tenths for economy, rounded down, and the same tip for any
  -- other speed. Its highest fee is twice the base fee that the node told, or 0, plus its tip; the fee that
  -- the transaction reports is this highest fee for all of its gas.
  pub build_transfer-eq_ok :
      (req : TransferRequest) (utx : UnsignedTx) (s t : S)
      → build_transfer e client chain chain_id req s ≡ (ok utx, t)
      → (nonce : ℕ) × (tip : ℤ) × (base_fee : Option ℤ) × (tip_cap : ℤ) × (fee_cap : ℤ) × (s1 : S)
        × (s2 : S) × (client.pending_nonce_at (e.hex_to_address req.source) s ≡ (ok nonce, s1))
        × (client.suggest_gas_tip_cap s1 ≡ (ok tip, s2))
        × (client.latest_base_fee s2 ≡ (ok base_fee, t))
        × ((n : ℕ) → tip ≡ pos n → Scaled n req.speed tip_cap)
        × (fee_cap ≡ (told base_fee *ℤ pos 2) +ℤ tip_cap)
        × (e.marshal_binary (e.new_tx (expected req nonce tip_cap fee_cap)) ≡ ok utx.payload)
        × (utx.fee.total.base ≡ some (fee_cap *ℤ pos 21000))
        × (utx.request ≡ req)
        × (utx.chain ≡ chain)
  unfolding build_transfer estimate_fee max_fee_of
  build_transfer-eq_ok req utx s t h =
      bind-inv (wrapped "evm: nonce: %w" [] (client.pending_nonce_at (e.hex_to_address req.source)))
        _ h
        λ nonce s1 p1 h1. bind-inv (estimate_fee e client chain chain_id req) _ h1 λ fee s3 p3 h3.
          bind-inv
            (wrapped "evm: marshal tx: %w" [] (
              lift
                (e.marshal_binary (e.new_tx (transfer_tx e client chain chain_id req fee nonce)))))
            _ h3
            λ payload s4 p4 h4.
              bind-inv (wrapped "evm: suggest tip: %w" [] client.suggest_gas_tip_cap) _ p3
                λ tip s2 q1 g1.
                  bind-inv (wrapped "evm: latest header: %w" [] client.latest_base_fee) _ g1
                    λ base_fee s3' q2 g2.
                      let made : estimate_from req.speed tip base_fee ≡ fee = cc in
                      let (cap, tip_cap) = read_param-estimate_from req.speed tip base_fee in
                      let caps : transfer_tx e client chain chain_id req fee nonce
                          ≡ expected req nonce (scale_tip tip req.speed)
                              (max_fee_of (base_fee_of base_fee) (scale_tip tip req.speed)) =
                        subst
                          (λ f.
                            transfer_tx e client chain chain_id req f nonce
                            ≡ expected req nonce (scale_tip tip req.speed)
                                (max_fee_of (base_fee_of base_fee) (scale_tip tip req.speed)))
                          made
                          (ap₂
                            (λ (c d : ℤ).
                              record (expected req nonce (scale_tip tip req.speed)
                                (max_fee_of (base_fee_of base_fee) (scale_tip tip req.speed))) {
                                  gas_tip_cap = c;
                                  gas_fee_cap = d;
                                })
                            tip_cap cap) in
                      let marshalled =
                        wrapped-inv "evm: marshal tx: %w" []
                          (lift (
                            e.marshal_binary
                              (e.new_tx (transfer_tx e client chain chain_id req fee nonce))))
                          p4 in
                      let whole : record {
                        chain = chain;
                        signing_account = no_account;
                        request = req;
                        fee = fee;
                        payload = payload;
                      }
                          ≡ utx =
                        cc in
                      let last : s3' ≡ t = cc in
                      (
                        nonce,
                        tip,
                        base_fee,
                        scale_tip tip req.speed,
                        max_fee_of (base_fee_of base_fee) (scale_tip tip req.speed),
                        s1,
                        s2,
                        wrapped-inv "evm: nonce: %w" []
                            (client.pending_nonce_at (e.hex_to_address req.source)) p1,
                        wrapped-inv "evm: suggest tip: %w" [] client.suggest_gas_tip_cap q1,
                        rw (← last)
                            (wrapped-inv "evm: latest header: %w" [] client.latest_base_fee q2),
                        λ n same. rw same (scale_tip-Scaled n req.speed),
                        max_fee_told base_fee (scale_tip tip req.speed),
                        ap (λ x. e.marshal_binary (e.new_tx x)) (sym caps)
                            ∙ ap (λ x. x.0) marshalled
                            ∙ ap (λ (u : UnsignedTx). ok u.payload) whole,
                        ap (λ (u : UnsignedTx). u.fee.total.base) (sym whole)
                            ∙ ap (λ (f : FeeEstimate). f.total.base) (sym made)
                            ∙ unfold estimate_from in refl,
                        ap (λ (u : UnsignedTx). u.request) (sym whole),
                        ap (λ (u : UnsignedTx). u.chain) (sym whole),
                      )
    where
      max_fee_told :
          (f : Option ℤ) (tip_cap : ℤ)
          → max_fee_of (base_fee_of f) tip_cap ≡ (told f *ℤ pos 2) +ℤ tip_cap
      max_fee_told none tip_cap = refl
      max_fee_told (some z) tip_cap = refl
