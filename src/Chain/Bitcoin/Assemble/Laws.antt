-- ===== src/Chain/Bitcoin/Assemble/Laws.antt =====
-- What a transfer that is built spends and pays.
use Prim.Native.Nat.{ℕ, ◌+◌, ◌-◌, ◌<◌, ◌^◌, ◌≤◌}
use mathlib.Core.List.{List, Perm, map, ◌++◌, ◌∷◌}
use mathlib.Core.Option.{some}
use mathlib.Core.Path.{ap, subst, subst₂, sym, ◌∙◌, ◌≡◌}
use native.Mathlib.Omega.{arith}
use omnicatena.Base.{All, length}
use omnicatena.Base.Bytes.{Bytes}
use omnicatena.Base.Int.{pos, wrap64, wrap64_id, ℤ, ◌+ℤ◌, ◌-ℤ◌, ◌<ℤ◌}
use omnicatena.Base.Result.{>>=-inv, ok, wrap-inv, ◌>>=◌}
use omnicatena.Base.Sums.{sum, sum-append, sum-perm}
use omnicatena.Chain.Bitcoin.Assemble.{add_inputs, add_outputs, assemble}
use omnicatena.Chain.Bitcoin.Assemble.Parts.{Spends, add_inputs-eq_ok, add_outputs-eq, paid_out}
use omnicatena.Chain.Bitcoin.Client.{Btcd, IsWire}
use omnicatena.Chain.Bitcoin.Coins.{Utxo, select_utxos}
use omnicatena.Chain.Bitcoin.Coins.Loop.{value}
use omnicatena.Chain.Bitcoin.Coins.Selection.{IsMoney, IsSort, select_utxos-eq_ok}
use omnicatena.Domain.{
  Amount, FeeEstimate, TransferRequest, UnsignedTx, base_of, chain_bitcoin, no_account,
}

change_exact :
    (t v f : ℕ)
    → v + f ≤ t
    → t < 2 ^ 63
    → wrap64 (wrap64 (pos t -ℤ pos v) -ℤ pos f) ≡ pos (t - v - f)
unfolding wrap64 ◌-ℤ◌
change_exact t v f h k = ground arith

need_exact : (v f : ℕ) → v + f < 2 ^ 63 → wrap64 (wrap64 (pos v) +ℤ wrap64 (pos f)) ≡ pos (v + f)
unfolding wrap64 ◌+ℤ◌
need_exact v f h = ground arith

module _ {F Tx Hash Addr : Type 0} (b : Btcd F Tx Hash Addr) (w : IsWire b) where
  -- A transaction that pays `v` to the recipient at the fee `f`.
  pub record IsTransfer (req : TransferRequest) (utxos : List Utxo) (v f : ℕ) (payload : Bytes)
      : Type 0 where
    pub tx : Tx
    pub raw : Bytes
    pub picked : List Utxo
    pub others : List Utxo
    pub to_script : Bytes
    pub change_script : Bytes
    pub change : List (ℤ × Bytes)
    pub part : Perm (picked ++ others) utxos
    pub inputs : Spends w picked (b.tx_in tx)
    pub outputs : b.tx_out tx ≡ (pos v, to_script) ∷ change
    pub balanced : sum value picked ≡ v + f + paid_out change
    pub at_most_one : length change ≤ 1
    pub positive : All (λ (o : ℤ × Bytes). (pos 0 <ℤ o.0) × (o.1 ≡ change_script)) change
    pub recipient : (b.decode_address req.dest >>= b.pay_to_addr_script) ≡ ok to_script
    pub sender : (b.decode_address req.source >>= b.pay_to_addr_script) ≡ ok change_script
    pub serialized : b.serialize tx ≡ ok raw
    pub stored :
        b.marshal_payload
          (record { raw_tx = raw; script_pub_keys = map (λ (u : Utxo). u.script_pub_key) picked })
        ≡ ok payload

  module _ {sort : List Utxo → List Utxo} (s : IsSort sort) {utxos : List Utxo}
      (m : IsMoney utxos) where
    some_ok : (a : Amount) {z z' : ℤ} → a.base ≡ some z → base_of a ≡ ok z' → z' ≡ z
    some_ok a h k = ground arith

    -- The numbers of a transfer: the amount and the change, and what was selected for them.
    record Settled (vb fb total : ℤ) (v f : ℕ) (picked : List Utxo) : Type 0 where
      others : List Utxo
      c : ℕ
      part : Perm (picked ++ others) utxos
      balanced : sum value picked ≡ v + f + c
      amount : wrap64 vb ≡ pos v
      rest : wrap64 (wrap64 (total -ℤ wrap64 vb) -ℤ wrap64 fb) ≡ pos c

    settle :
        (v f : ℕ) (picked : List Utxo) (total : ℤ)
        → v + f < 2 ^ 63
        → select_utxos sort utxos (wrap64 (wrap64 (pos v) +ℤ wrap64 (pos f))) ≡ ok (picked, total)
        → Settled (pos v) (pos f) total v f picked
    settle v f picked total small h =
        let (others, part, exact, reaches, _) =
          select_utxos-eq_ok s m (pos (v + f)) (
            subst (λ n. select_utxos sort utxos n ≡ ok (picked, total)) (need_exact v f small) h) in
        let t = sum value picked in
        let bound : t < 2 ^ 63 =
          omega (arith, m.fits, sum-perm value part, sum-append value picked others) in
        let enough : v + f ≤ t = ground arith in
        let va : wrap64 (pos v) ≡ pos v = wrap64_id (pos v) (omega arith) in
        let fa : wrap64 (pos f) ≡ pos f = wrap64_id (pos f) (omega arith) in
        record {
          others = others;
          c = t - v - f;
          part = part;
          balanced = omega arith;
          amount = va;
          rest = simp (exact, va, fa) (change_exact t v f enough bound);
        }

    assemble_built :
        (req : TransferRequest) (fee : FeeEstimate) (v f : ℕ)
        → v + f < 2 ^ 63
        → (picked : List Utxo) (total : ℤ) (to_script change_script : Bytes) (with_inputs : Tx)
          (raw payload : Bytes) {utx : UnsignedTx}
        → select_utxos sort utxos (wrap64 (wrap64 (pos v) +ℤ wrap64 (pos f))) ≡ ok (picked, total)
        → (b.decode_address req.dest >>= b.pay_to_addr_script) ≡ ok to_script
        → (b.decode_address req.source >>= b.pay_to_addr_script) ≡ ok change_script
        → add_inputs b b.new_msg_tx picked ≡ ok with_inputs
        → b.serialize (
            add_outputs b with_inputs
              (wrap64 (pos v))
              to_script
              (wrap64 (wrap64 (total -ℤ wrap64 (pos v)) -ℤ wrap64 (pos f)))
              change_script)
          ≡ ok raw
        → b.marshal_payload
            (record { raw_tx = raw; script_pub_keys = map (λ (u : Utxo). u.script_pub_key) picked })
          ≡ ok payload
        → ok (record {
          chain = chain_bitcoin;
          signing_account = no_account;
          request = req;
          fee = fee;
          payload = payload;
        })
          ≡ ok utx
        → IsTransfer req utxos v f utx.payload
          × (utx.request ≡ req)
          × (utx.fee ≡ fee)
          × (utx.chain ≡ chain_bitcoin)
    assemble_built req fee v f small picked total to_script change_script with_inputs raw payload
          {utx} p3 recipient sender p8 p9 p10 h =
        let st = settle v f picked total small p3 in
        let (ins, spends, inputs, outs) = add_inputs-eq_ok w b.new_msg_tx picked p8 in
        let (change, eout, ein, sumc, one, good) =
          add_outputs-eq w with_inputs v st.c to_script change_script (outs ∙ w.tx_out-new) in
        let e : payload ≡ utx.payload = ground arith in
        (
          record {
            tx = add_outputs b with_inputs (pos v) to_script (pos st.c) change_script;
            raw = raw;
            picked = picked;
            others = st.others;
            to_script = to_script;
            change_script = change_script;
            change = change;
            part = st.part;
            inputs =
                subst (Spends w picked) (sym (ein ∙ inputs ∙ ap (λ l. l ++ ins) w.tx_in-new))
                  spends;
            outputs = eout;
            balanced = omega (arith, st.balanced, sumc);
            at_most_one = one;
            positive = good;
            recipient = recipient;
            sender = sender;
            serialized =
                subst₂
                  (λ x y.
                    b.serialize (add_outputs b with_inputs x to_script y change_script) ≡ ok raw)
                  st.amount st.rest p9;
            stored =
                subst
                  (λ p.
                    b.marshal_payload (record {
                      raw_tx = raw;
                      script_pub_keys = map (λ (u : Utxo). u.script_pub_key) picked;
                    })
                    ≡ ok p)
                  e p10;
          },
          ground arith,
          ground arith,
          ground arith,
        )

    -- A transfer that is assembled spends some of the given coins; it pays the amount to the recipient's
    -- script, and the rest of the coins, less the fee, to the sender's, in one output at most, which is
    -- positive: inputs and outputs differ by the fee exactly. The amount and the fee are not negative,
    -- and their sum fits an int64.
    pub assemble-IsTransfer :
        (req : TransferRequest) (fee : FeeEstimate) (v f : ℕ) {utx : UnsignedTx}
        → req.amount.base ≡ some (pos v)
        → fee.total.base ≡ some (pos f)
        → v + f < 2 ^ 63
        → assemble b sort req fee utxos ≡ ok utx
        → IsTransfer req utxos v f utx.payload
          × (utx.request ≡ req)
          × (utx.fee ≡ fee)
          × (utx.chain ≡ chain_bitcoin)
    unfolding assemble
    assemble-IsTransfer req fee v f {utx} hv hf small h =
        >>=-inv (base_of fee.total) _ h λ fb p1 h1. >>=-inv (base_of req.amount) _ h1 λ vb p2 h2.
          let efb : fb ≡ pos f = some_ok fee.total hf p1 in
          let evb : vb ≡ pos v = some_ok req.amount hv p2 in
          wrap-inv _ _ (select_utxos sort utxos (wrap64 (wrap64 vb +ℤ wrap64 fb))) _ h2
            λ (picked, total) p3 h3. wrap-inv _ _ (b.decode_address req.dest) _ h3 λ to_addr p4 h4.
              wrap-inv _ _ (b.decode_address req.source) _ h4 λ from_addr p5 h5.
                wrap-inv _ _ (b.pay_to_addr_script to_addr) _ h5 λ to_script p6 h6.
                  wrap-inv _ _ (b.pay_to_addr_script from_addr) _ h6 λ change_script p7 h7.
                    >>=-inv (add_inputs b b.new_msg_tx picked) _ h7 λ with_inputs p8 h8.
                      wrap-inv _ _ _ _ h8 λ raw p9 h9. wrap-inv _ _ _ _ h9 λ payload p10 h10.
                        assemble_built req fee v f small picked total to_script change_script
                          with_inputs raw payload
                          (subst₂
                            (λ x y.
                              select_utxos sort utxos (wrap64 (wrap64 x +ℤ wrap64 y))
                              ≡ ok (picked, total))
                            evb efb p3)
                          (rw p4 p6) (rw p5 p7) p8
                          (subst₂
                            (λ x y.
                              b.serialize (
                                add_outputs b with_inputs (wrap64 x) to_script
                                  (wrap64 (wrap64 (total -ℤ wrap64 x) -ℤ wrap64 y)) change_script)
                              ≡ ok raw)
                            evb efb p9)
                          p10 h10
