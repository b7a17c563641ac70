-- ===== src/Chain/Bitcoin/Coins/Selection.antt =====
-- What `select_utxos` returns, for any sort that orders the coins by value, largest first.
use Prim.Native.Nat.{suc, ℕ, ◌+◌, ◌<◌, ◌^◌, ◌≤◌}
use mathlib.Core.List.{List, Perm, [], ◌++◌, ◌∷◌}
use mathlib.Core.List.Perm
use mathlib.Core.Logic.{inl, inr, ◌≢◌}
use mathlib.Core.Path.{ap, subst, sym, ◌∙◌, ◌≡◌}
use native.Mathlib.Omega.{arith}
use omnicatena.Base.{
  All, Bool-cases, drop, leb, leb→le, length, length-pos, length-take, take-append-drop,
}
use omnicatena.Base.Int.{neg_part, pos, ℤ, ◌<ℤ◌, ◌≤ℤ◌}
use omnicatena.Base.Result.{err, errorf, int, ok}
use omnicatena.Base.Sums.{All-of_sum, Descending, sum, sum-eq-zero, sum-le-take, sum-perm}
use omnicatena.Chain.Bitcoin.Coins.{Utxo, insufficient, select_utxos}
use omnicatena.Chain.Bitcoin.Coins.Loop.{Stops, pick-eq_err, pick-eq_ok, pick_reaches, value}

-- Amounts that a node reports: none is negative, and all of them fit an `int64` together.
pub record IsMoney (utxos : List Utxo) : Type 0 where
  pub nonneg : All (λ u. neg_part u.satoshis ≡ 0) utxos
  pub fits : sum value utxos < 2 ^ 63

-- What sort.Slice promises of the slice that it leaves.
pub record IsSort (sort : List Utxo → List Utxo) : Type 0 where
  pub perm : (utxos : List Utxo) → Perm (sort utxos) utxos
  pub descending : (utxos : List Utxo) → Descending value (sort utxos)

module _ {sort : List Utxo → List Utxo} (s : IsSort sort) {utxos : List Utxo}
    (m : IsMoney utxos) where
  sum-sort : (f : Utxo → ℕ) → sum f (sort utxos) ≡ sum f utxos
  sum-sort f = sum-perm f (s.perm utxos)

  sort-nonneg : All (λ u. neg_part u.satoshis ≡ 0) (sort utxos)
  sort-nonneg =
      let g : Utxo → ℕ = λ u. neg_part u.satoshis in
      All-of_sum g (sort utxos) (sum-sort g ∙ sum-eq-zero g utxos m.nonneg)

  sort-fits : 0 + sum value (sort utxos) < 2 ^ 63
  sort-fits = omega (arith, sum-sort value, m.fits)

  select-Stops :
      (need : ℤ) {picked : List Utxo} {total : ℤ}
      → select_utxos sort utxos need ≡ ok (picked, total)
      → Stops need [] (sort utxos) picked total
  unfolding select_utxos
  select-Stops need {picked} {total} e =
      pick-eq_ok need [] (sort utxos) picked total sort-nonneg sort-fits e

  fewest :
      (need : ℤ) {picked : List Utxo} {total : ℤ}
      → Stops need [] (sort utxos) picked total
      → (chosen rest : List Utxo) → Perm (chosen ++ rest) utxos
      → chosen ≢ []
      → need ≤ℤ pos (sum value chosen)
      → length picked ≤ length chosen
  fewest need {picked} st chosen rest p some_coin enough =
      let j = length chosen in
      let size : length picked ≡ suc st.k =
        ap length st.prefix ∙ length-take (suc st.k) (sort utxos) (omega (arith, st.inside)) in
      let best =
        sum-le-take value (sort utxos) chosen rest (s.descending utxos)
          (Perm.trans p (Perm.symm (s.perm utxos))) in
      elim (Bool-cases (leb (suc st.k) j)) [
        | inl le ↦ omega (arith, size, leb→le (suc st.k) j le)
        | inr gt ↦
            absurd
              (omega (arith, enough, best, st.first j (length-pos chosen some_coin) (ground arith)))
      ]

  sort-ne-nil : utxos ≢ [] → sort utxos ≢ []
  sort-ne-nil full e = full (sym (Perm.nil-eq (subst (λ l. Perm l utxos) e (s.perm utxos))))

  -- A successful selection is a part of the coins; its total is their exact sum and reaches `need`;
  -- and every choice of at least one coin that reaches `need` has at least as many coins.
  pub select_utxos-eq_ok :
      (need : ℤ) {picked : List Utxo} {total : ℤ}
      → select_utxos sort utxos need ≡ ok (picked, total)
      → (others : List Utxo) × Perm (picked ++ others) utxos
        × (total ≡ pos (sum value picked))
        × (need ≤ℤ total)
        × ((chosen rest : List Utxo)
            → Perm (chosen ++ rest) utxos
            → chosen ≢ []
            → need ≤ℤ pos (sum value chosen)
            → length picked ≤ length chosen)
  select_utxos-eq_ok need {picked} {total} e =
      let st = select-Stops need e in
      (
        drop (suc st.k) (sort utxos),
        subst (λ l. Perm (l ++ drop (suc st.k) (sort utxos)) utxos) (sym st.prefix)
            (subst (λ l. Perm l utxos) (sym (take-append-drop (suc st.k) (sort utxos)))
              (s.perm utxos)),
        st.exact,
        st.reaches,
        λ chosen rest p some_coin enough. fewest need st chosen rest p some_coin enough,
      )

  -- If the coins together reach `need`, and there is one, the selection succeeds; if they do not, it
  -- fails with the error that tells what was needed and what there is.
  pub select_utxos_total :
      (need : ℤ)
      → (utxos ≢ []
          → need ≤ℤ pos (sum value utxos)
          → (r : List Utxo × ℤ) × (select_utxos sort utxos need ≡ ok r))
        × (pos (sum value utxos) <ℤ need
            → select_utxos sort utxos need
              ≡ err (
                  errorf "insufficient funds: need %d sat, have %d sat"
                    (int need ∷ int (pos (sum value utxos)) ∷ [])))
  unfolding select_utxos insufficient
  select_utxos_total need = (
    λ full enough.
        pick_reaches need [] (sort utxos) sort-nonneg sort-fits (sort-ne-nil full)
          (omega (arith, sum-sort value)),
    λ short.
        pick-eq_err need [] (sort utxos) sort-nonneg sort-fits (omega (arith, sum-sort value))
        ∙ ap (λ (n : ℕ). err (insufficient need (pos n))) (omega (arith, sum-sort value)),
  )
