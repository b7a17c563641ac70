-- ===== src/Tests/Coins.antt =====
-- The selection of coins, on three of them.
use Prim.Native.Nat.{◌≤◌}
use mathlib.Core.List.{List, Perm, [], ◌++◌, ◌∷◌}
use mathlib.Core.Logic.{◌≢◌}
use mathlib.Core.Path.{refl, ◌≡◌}
use omnicatena.Base.{length}
use omnicatena.Base.Int.{pos, wrap64, ℤ, ◌+ℤ◌, ◌<ℤ◌, ◌≤ℤ◌}
use omnicatena.Base.Result.{err, errorf, int, ok}
use omnicatena.Base.Sums.{sum}
use omnicatena.Chain.Bitcoin.Coins.{Utxo, pick, select_utxos}
use omnicatena.Chain.Bitcoin.Coins.Loop.{value}
use omnicatena.Chain.Bitcoin.Coins.Selection.{select_utxos-eq_ok, select_utxos_total}
use omnicatena.Tests.Fixtures.{
  coin, sort_coins, sort_coins-IsSort, three_coins, three_coins-IsMoney,
}

abbrev two_coins : List Utxo
two_coins = coin "bb" 700 ∷ coin "cc" 300 ∷ []

select_800 : select_utxos sort_coins three_coins (pos 800) ≡ ok (two_coins, pos 1000)
unfolding select_utxos sort_coins pick wrap64 omnicatena.Base.Int.◌+ℤ◌
select_800 = refl

select_utxos-eq_ok_example :
    (others : List Utxo) × Perm (two_coins ++ others) three_coins
    × (pos 1000 ≡ pos (sum value two_coins))
    × (pos 800 ≤ℤ pos 1000)
    × ((chosen rest : List Utxo)
        → Perm (chosen ++ rest) three_coins
        → chosen ≢ []
        → pos 800 ≤ℤ pos (sum value chosen)
        → length two_coins ≤ length chosen)
select_utxos-eq_ok_example =
    select_utxos-eq_ok sort_coins-IsSort three_coins-IsMoney (pos 800) select_800

select_utxos_total_example :
    (three_coins ≢ []
      → pos 5000 ≤ℤ pos (sum value three_coins)
      → (r : List Utxo × ℤ) × (select_utxos sort_coins three_coins (pos 5000) ≡ ok r))
    × (pos (sum value three_coins) <ℤ pos 5000
        → select_utxos sort_coins three_coins (pos 5000)
          ≡ err (
              errorf "insufficient funds: need %d sat, have %d sat"
                (int (pos 5000) ∷ int (pos 1100) ∷ [])))
select_utxos_total_example = select_utxos_total sort_coins-IsSort three_coins-IsMoney (pos 5000)
