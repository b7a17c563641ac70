-- ===== src/Chain/Bitcoin/Assemble/Parts.antt =====
-- The inputs and the outputs that `BuildTransfer` puts into a transaction.
use Prim.Native.Nat.{suc, zero, ℕ, ◌≤◌}
use mathlib.Core.List.{List, [], append-nil, append_assoc, ◌++◌, ◌∷◌}
use mathlib.Core.Path.{ap, refl, sym, ◌∙◌, ◌≡◌}
use native.Mathlib.Omega.{arith}
use omnicatena.Base.{All, length}
use omnicatena.Base.Bytes.{Bytes}
use omnicatena.Base.Int.{pos, pos_part, ℤ, ◌<ℤ◌}
use omnicatena.Base.Result.{>>=-eq-ok, ok, wrap-eq-ok}
use omnicatena.Base.Sums.{sum}
use omnicatena.Chain.Bitcoin.Assemble.{add_inputs, add_outputs}
use omnicatena.Chain.Bitcoin.Client.{Btcd, IsWire}
use omnicatena.Chain.Bitcoin.Coins.{Utxo}

-- The sum of outputs, none of which is negative.
abbrev pub paid_out : List (ℤ × Bytes) → ℕ
paid_out = sum (λ o. pos_part o.0)

module _ {F Tx Hash Addr : Type 0} {b : Btcd F Tx Hash Addr} (w : IsWire b) where
  -- The inputs spend these coins, in their order.
  abbrev pub Spends : List Utxo → List (Hash × ℕ) → Type 0
  Spends [] [] = Unit
  Spends (u ∷ us) ((h, v) ∷ ins) =
      (b.new_hash_from_str u.txid ≡ ok h) × (v ≡ u.vout) × Spends us ins
  Spends _ _ = ⊥

  pub add_inputs-eq_ok :
      (tx : Tx) (us : List Utxo) {t : Tx}
      → add_inputs b tx us ≡ ok t
      → (ins : List (Hash × ℕ)) × Spends us ins
        × (b.tx_in t ≡ b.tx_in tx ++ ins)
        × (b.tx_out t ≡ b.tx_out tx)
  unfolding add_inputs
  add_inputs-eq_ok tx [] {t} h =
      let e : t ≡ tx = ground arith in
      ([], tt, ap b.tx_in e ∙ sym (append-nil (b.tx_in tx)), ap b.tx_out e)
  add_inputs-eq_ok tx (u ∷ us) {t} h =
      let (hash, found, rest) = >>=-eq-ok _ _ h in
      let (ins, spends, inputs, outputs) = add_inputs-eq_ok (b.add_tx_in tx hash u.vout) us rest in
      (
        (hash, u.vout) ∷ ins,
        (wrap-eq-ok _ _ (b.new_hash_from_str u.txid) found, refl, spends),
        inputs
            ∙ ap (λ l. l ++ ins) (w.tx_in-add_in tx hash u.vout)
            ∙ append_assoc (b.tx_in tx) ((hash, u.vout) ∷ []) ins,
        outputs ∙ w.tx_out-add_in tx hash u.vout,
      )

  pub add_outputs-eq :
      (tx : Tx) (v c : ℕ) (to_script change_script : Bytes)
      → b.tx_out tx ≡ []
      → (change : List (ℤ × Bytes)) × (b.tx_out
            (add_outputs b tx (pos v) to_script (pos c) change_script)
          ≡ (pos v, to_script) ∷ change)
        × (b.tx_in (add_outputs b tx (pos v) to_script (pos c) change_script) ≡ b.tx_in tx)
        × (paid_out change ≡ c)
        × (length change ≤ 1)
        × All (λ (o : ℤ × Bytes). (pos 0 <ℤ o.0) × (o.1 ≡ change_script)) change
  unfolding add_outputs
  add_outputs-eq tx v zero to_script change_script e = (
    [],
    w.tx_out-add_out tx (pos v) to_script ∙ ap (λ l. l ++ (pos v, to_script) ∷ []) e,
    w.tx_in-add_out tx (pos v) to_script,
    refl,
    omega arith,
    tt,
  )
  add_outputs-eq tx v (suc c) to_script change_script e =
      let paid = b.add_tx_out tx (pos v) to_script in
      let step : add_outputs b tx (pos v) to_script (pos (suc c)) change_script
          ≡ b.add_tx_out paid (pos (suc c)) change_script =
        ground arith in
      (
        (pos (suc c), change_script) ∷ [],
        ap b.tx_out step
            ∙ w.tx_out-add_out paid (pos (suc c)) change_script
            ∙ ap (λ l. l ++ (pos (suc c), change_script) ∷ [])
                (w.tx_out-add_out tx (pos v) to_script ∙ ap (λ l. l ++ (pos v, to_script) ∷ []) e),
        ap b.tx_in step
            ∙ w.tx_in-add_out paid (pos (suc c)) change_script
            ∙ w.tx_in-add_out tx (pos v) to_script,
        omega arith,
        omega arith,
        ((omega arith, refl), tt),
      )
