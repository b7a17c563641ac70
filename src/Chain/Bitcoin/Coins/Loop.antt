-- ===== src/Chain/Bitcoin/Coins/Loop.antt =====
-- The loop of `selectUTXOs`: where it stops, what it has taken by then, and when it succeeds.
use Prim.Native.Nat.{suc, zero, ℕ, ◌+◌, ◌<◌, ◌^◌, ◌≤◌}
use mathlib.Core.List.{List, [], append_assoc, ◌++◌, ◌∷◌}
use mathlib.Core.Logic.{inl, inr, ◌≢◌}
use mathlib.Core.Path.{ap, refl, sym, ◌∙◌, ◌≡◌}
use native.Mathlib.Omega.{arith}
use omnicatena.Base.{All, Bool-cases, if◌then◌else◌, length, take}
use omnicatena.Base.Int.{leb_ℤ, leb_ℤ→gt, neg_part, pos, pos_part, wrap64, ℤ, ◌+ℤ◌, ◌<ℤ◌, ◌≤ℤ◌}
use omnicatena.Base.Result.{err, ok}
use omnicatena.Base.Sums.{sum, sum-append}
use omnicatena.Chain.Bitcoin.Coins.{Utxo, insufficient, pick}

abbrev pub value : Utxo → ℕ
value u = pos_part u.satoshis

-- The loop stops at the first prefix, of at least one coin, that reaches `need`.
pub record Stops (need : ℤ) (selected rest picked : List Utxo) (total : ℤ) : Type 0 where
  pub k : ℕ
  pub inside : k < length rest
  pub prefix : picked ≡ selected ++ take (suc k) rest
  pub exact : total ≡ pos (sum value picked)
  pub reaches : need ≤ℤ total
  pub first : (j : ℕ) → 0 < j → j ≤ k → pos (sum value selected + sum value (take j rest)) <ℤ need

pub add_coin :
    (n : ℕ) (u : Utxo)
    → neg_part u.satoshis ≡ 0
    → n + value u < 2 ^ 63
    → wrap64 (pos n +ℤ u.satoshis) ≡ pos (n + value u)
unfolding wrap64 ◌+ℤ◌
add_coin n u h k = ground arith

sum-snoc :
    (selected : List Utxo) (u : Utxo)
    → sum value (selected ++ u ∷ []) ≡ sum value selected + value u
sum-snoc selected u = omega (arith, sum-append value selected (u ∷ []))

-- One round, in terms of the coins that have been taken.
pick_step :
    (need : ℤ) (selected : List Utxo) (u : Utxo) (rest : List Utxo)
    → neg_part u.satoshis ≡ 0
    → sum value selected + value u < 2 ^ 63
    → pick need selected (pos (sum value selected)) (u ∷ rest) ≡ (
        let s = selected ++ u ∷ [] in
        let t = pos (sum value s) in if leb_ℤ need t then ok (s, t) else pick need s t rest)
unfolding pick
pick_step need selected u rest h k =
    ground (arith, add_coin (sum value selected) u h k, ap pos (sum-snoc selected u))

first_round :
    (need : ℤ) (selected : List Utxo) (u : Utxo) (rest : List Utxo) (k : ℕ)
    → pos (sum value (selected ++ u ∷ [])) <ℤ need
    → ((j : ℕ)
        → 0 < j
        → j ≤ k
        → pos (sum value (selected ++ u ∷ []) + sum value (take j rest)) <ℤ need)
    → (j : ℕ) → 0 < j
    → j ≤ suc k
    → pos (sum value selected + sum value (take j (u ∷ rest))) <ℤ need
first_round need selected u rest k short ih zero h h' = absurd (omega arith)
first_round need selected u rest k short ih (suc zero) h h' = omega (arith, sum-snoc selected u)
first_round need selected u rest k short ih (suc (suc j)) h h' =
    omega (arith, sum-snoc selected u, ih (suc j) (omega arith) (omega arith))

pub pick-eq_ok :
    (need : ℤ) (selected rest picked : List Utxo) (total : ℤ)
    → All (λ u. neg_part u.satoshis ≡ 0) rest
    → sum value selected + sum value rest < 2 ^ 63
    → pick need selected (pos (sum value selected)) rest ≡ ok (picked, total)
    → Stops need selected rest picked total
pick-eq_ok need selected [] picked total h fits e = unfold pick in cc
pick-eq_ok need selected (u ∷ rest) picked total (hu, hs) fits e =
    let s = selected ++ u ∷ [] in
    let e' = sym (pick_step need selected u rest hu (omega arith)) ∙ e in
    elim (Bool-cases (leb_ℤ need (pos (sum value s)))) [
      | inl stop ↦
          let p : picked ≡ s = ground arith in
          record {
            k = 0;
            inside = omega arith;
            prefix = p;
            exact = ground arith;
            reaches = ground arith;
            first = λ j h h'. absurd (omega arith);
          }
      | inr more ↦
          let ih =
            pick-eq_ok need s rest picked total hs (omega (arith, sum-snoc selected u))
              (ground arith) in
          record {
            k = suc ih.k;
            inside = omega (arith, ih.inside);
            prefix = ih.prefix ∙ append_assoc selected (u ∷ []) (take (suc ih.k) rest);
            exact = ih.exact;
            reaches = ih.reaches;
            first = λ j h h'.
                first_round need selected u rest ih.k (leb_ℤ→gt need (pos (sum value s)) more)
                  ih.first j h h';
          }
    ]

-- The loop ends with an error exactly when all the coins together do not reach `need`.
pub pick-eq_err :
    (need : ℤ) (selected rest : List Utxo)
    → All (λ u. neg_part u.satoshis ≡ 0) rest
    → sum value selected + sum value rest < 2 ^ 63
    → pos (sum value selected + sum value rest) <ℤ need
    → pick need selected (pos (sum value selected)) rest
      ≡ err (insufficient need (pos (sum value selected + sum value rest)))
pick-eq_err need selected [] h fits short =
    unfold pick in ap (λ (n : ℕ). err (insufficient need (pos n))) (omega arith)
pick-eq_err need selected (u ∷ rest) (hu, hs) fits short =
    let s = selected ++ u ∷ [] in
    let ih =
      pick-eq_err need s rest hs (omega (arith, sum-snoc selected u))
        (omega (arith, sum-snoc selected u)) in
    let e : sum value s + sum value rest ≡ sum value selected + (value u + sum value rest) =
      omega (arith, sum-snoc selected u) in
    pick_step need selected u rest hu (omega arith) ∙ ground (arith, ih, e, sum-snoc selected u)

pub pick_reaches :
    (need : ℤ) (selected rest : List Utxo)
    → All (λ u. neg_part u.satoshis ≡ 0) rest
    → sum value selected + sum value rest < 2 ^ 63
    → rest ≢ []
    → need ≤ℤ pos (sum value selected + sum value rest)
    → (r : List Utxo × ℤ) × (pick need selected (pos (sum value selected)) rest ≡ ok r)
pick_reaches need selected [] h fits full enough = absurd (full refl)
pick_reaches need selected (u ∷ []) (hu, hs) fits full enough =
    let s = selected ++ u ∷ [] in
    (
      (s, pos (sum value s)),
      pick_step need selected u [] hu (omega arith) ∙ ground (arith, sum-snoc selected u),
    )
pick_reaches need selected (u ∷ v ∷ rest) (hu, hs) fits full enough =
    let s = selected ++ u ∷ [] in
    let step = pick_step need selected u (v ∷ rest) hu (omega arith) in
    elim (Bool-cases (leb_ℤ need (pos (sum value s)))) [
      | inl stop ↦ ((s, pos (sum value s)), step ∙ ground arith)
      | inr more ↦
          let (r, e) =
            pick_reaches need s (v ∷ rest) hs (omega (arith, sum-snoc selected u)) (cc)
              (omega (arith, sum-snoc selected u)) in
          (r, step ∙ ground arith)
    ]
