-- ===== src/Tests/Fixtures.antt =====
-- Concrete instances of what the code takes from libraries: a sort, and a table for transactions.
use Prim.Native.Nat.{ℕ, ◌≤◌}
use Prim.Native.String.{String}
use mathlib.Core.Bool.{false}
use mathlib.Core.List.{List, Perm, [], ◌∷◌}
use mathlib.Core.List.Perm
use mathlib.Core.Logic.{inl, inr}
use mathlib.Core.Option.{some-injective}
use mathlib.Core.Path.{refl}
use native.Mathlib.Omega.{arith}
use omnicatena.Base.{All, All-mono, Bool-cases, if◌then◌else◌, leb, leb→le, string_eq, ◌==◌}
use omnicatena.Base.Int.{pos}
use omnicatena.Base.Map.{lookup}
use omnicatena.Base.Sums.{Descending}
use omnicatena.Chain.Bitcoin.Coins.{Utxo}
use omnicatena.Chain.Bitcoin.Coins.Loop.{value}
use omnicatena.Chain.Bitcoin.Coins.Selection.{IsMoney, IsSort}
use omnicatena.Domain.{Address, TxEvent, confirmed, inbound, no_amount}
use omnicatena.Repository.Contract.{GivesAll}

insert_coin : Utxo → List Utxo → List Utxo
insert_coin u [] = u ∷ []
insert_coin u (x ∷ xs) =
    let rest = insert_coin u xs in if leb (value x) (value u) then u ∷ x ∷ xs else x ∷ rest

unfoldable pub sort_coins : List Utxo → List Utxo
unfolding insert_coin
sort_coins [] = []
sort_coins (u ∷ us) = insert_coin u (sort_coins us)

insert_coin-perm : (u : Utxo) (xs : List Utxo) → Perm (insert_coin u xs) (u ∷ xs)
unfolding insert_coin
insert_coin-perm u [] = Perm.refl (u ∷ [])
insert_coin-perm u (x ∷ xs) = elim (Bool-cases (leb (value x) (value u))) [
  | inl h ↦ rw h (Perm.refl (u ∷ x ∷ xs))
  | inr h ↦ rw h (Perm.trans (Perm.cons x (insert_coin-perm u xs)) (Perm.swap u x xs))
]

sort_coins-perm : (us : List Utxo) → Perm (sort_coins us) us
unfolding sort_coins
sort_coins-perm [] = Perm.refl []
sort_coins-perm (u ∷ us) =
    Perm.trans (insert_coin-perm u (sort_coins us)) (Perm.cons u (sort_coins-perm us))

insert_coin-below :
    (n : ℕ) (u : Utxo) (xs : List Utxo)
    → value u ≤ n
    → All (λ y. value y ≤ n) xs
    → All (λ y. value y ≤ n) (insert_coin u xs)
unfolding insert_coin
insert_coin-below n u [] h a = (h, tt)
insert_coin-below n u (x ∷ xs) h (b, a) = elim (Bool-cases (leb (value x) (value u))) [
  | inl e ↦ rw e (h, (b, a))
  | inr e ↦ rw e (b, insert_coin-below n u xs h a)
]

insert_coin-Descending :
    (u : Utxo) (xs : List Utxo) → Descending value xs → Descending value (insert_coin u xs)
unfolding insert_coin
insert_coin-Descending u [] d = (tt, tt)
insert_coin-Descending u (x ∷ xs) (a, d) = elim (Bool-cases (leb (value x) (value u))) [
  | inl e ↦
      let h : value x ≤ value u = leb→le (value x) (value u) e in
      rw e ((h, All-mono xs (λ y p. omega arith) a), (a, d))
  | inr e ↦
      let h : value u ≤ value x = ground arith in
      rw e (insert_coin-below (value x) u xs h a, insert_coin-Descending u xs d)
]

sort_coins-Descending : (us : List Utxo) → Descending value (sort_coins us)
unfolding sort_coins
sort_coins-Descending [] = tt
sort_coins-Descending (u ∷ us) = insert_coin-Descending u (sort_coins us) (sort_coins-Descending us)

pub sort_coins-IsSort : IsSort sort_coins
sort_coins-IsSort = record { perm = sort_coins-perm; descending = sort_coins-Descending }

abbrev pub coin : String → ℕ → Utxo
coin txid n = record {
  txid = txid;
  vout = 0;
  satoshis = pos n;
  script_pub_key = [];
  coinbase = false;
  height = pos 1;
}

abbrev pub three_coins : List Utxo
three_coins = coin "aa" 100 ∷ coin "bb" 700 ∷ coin "cc" 300 ∷ []

pub three_coins-IsMoney : IsMoney three_coins
three_coins-IsMoney = record { nonneg = (refl, (refl, (refl, tt))); fits = omega arith }

abbrev pub paid : Address → TxEvent
paid addr = record {
  kind = inbound;
  chain = "ethereum";
  address = addr;
  counterparty = "bob";
  hash = "0x1";
  amount = no_amount;
  status = confirmed;
  block_height = 6;
  timestamp = pos 0;
}

-- A range that keeps the order of the entries gives all of them.
pub same_order-GivesAll : GivesAll (λ m. m)
unfolding lookup
same_order-GivesAll [] id w h = absurd (cc)
same_order-GivesAll ((k, x) ∷ rest) id w h = elim (Bool-cases (k == id)) [
  | inl e ↦ inl (some-injective x w (rw e at h))
  | inr e ↦ inr (same_order-GivesAll rest id w (rw e at h))
]
