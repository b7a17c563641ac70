-- ===== src/Chain/Bitcoin/Queries.antt =====
-- Balance, Broadcast and GetTransaction of internal/adapter/chain/bitcoin/adapter.go.
use Prim.Native.Nat.{ℕ, ◌+◌, ◌<◌, ◌^◌, ◌≤◌}
use Prim.Native.String.{String}
use mathlib.Core.List.{List, [], ◌∷◌}
use mathlib.Core.Logic.{inl, inr}
use mathlib.Core.Option.{some}
use mathlib.Core.Path.{ap, ◌∙◌, ◌≡◌}
use native.Mathlib.Omega.{arith}
use omnicatena.Base.{All, Bool-cases, if◌then◌else◌, nat_eq, ◌==◌}
use omnicatena.Base.Exec.{Exec, attempt, lift, pure, wrapped, ◌>>=◌}
use omnicatena.Base.Int.{neg_part, pos, wrap64, ℤ, ◌+ℤ◌, ◌≤ℤ◌}
use omnicatena.Base.Result.{err, ok, str}
use omnicatena.Base.Sums.{sum, sum-append, sum-perm}
use omnicatena.Chain.Bitcoin.Assemble.{native_btc}
use omnicatena.Chain.Bitcoin.Client.{Btcd, Rpc}
use omnicatena.Chain.Bitcoin.Coins.{Utxo, immature, select_utxos, spendable}
use omnicatena.Chain.Bitcoin.Coins.Loop.{add_coin, value}
use omnicatena.Chain.Bitcoin.Coins.Selection.{IsMoney, IsSort, select_utxos-eq_ok}
use omnicatena.Chain.Bitcoin.Transfer.{fetch_utxos}
use omnicatena.Domain.{
  Address, Amount, Asset, SignedTx, Transaction, bare_transaction, chain_bitcoin, confirmed,
  pending, unknown,
}

-- The loop of Balance, on an `int64`.
add_satoshis : ℤ → List Utxo → ℤ
add_satoshis total [] = total
add_satoshis total (u ∷ rest) = add_satoshis (wrap64 (total +ℤ u.satoshis)) rest

unfoldable pub balance_of : List Utxo → Amount
unfolding add_satoshis
balance_of utxos = record { asset = native_btc; base = some (add_satoshis (pos 0) utxos) }

abbrev pub transaction_of : String → ℕ → Transaction
transaction_of hash confirmations =
    record (bare_transaction chain_bitcoin hash
      (if confirmations == 0 then pending else confirmed)) { confirmations = confirmations }

module _ {S F Tx Hash Addr : Type 0} (b : Btcd F Tx Hash Addr) (rpc : Rpc S Tx Hash) where
  unfoldable pub balance : Address → Asset → Exec S Amount
  balance addr asset = fetch_utxos b rpc addr >>= λ utxos. pure (balance_of utxos)

  unfoldable pub broadcast : SignedTx → Exec S String
  broadcast tx = wrapped "bitcoin: deserialize: %w" [] (lift (b.deserialize tx.raw)) >>= λ msg.
      wrapped "bitcoin: broadcast: %w" [] (rpc.send_raw_transaction msg) >>= λ hash.
      pure (b.hash_string hash)

  -- A node that does not know the hash, and one that refuses to answer, leave the status unknown.
  unfoldable pub get_transaction : String → Exec S Transaction
  get_transaction hash =
      wrapped "bitcoin: invalid hash %q: %w" (str hash ∷ []) (lift (b.new_hash_from_str hash))
      >>= λ h. attempt (rpc.get_raw_transaction_verbose h) >>= λ r. elim r [
        | err e ↦ pure (bare_transaction chain_bitcoin hash unknown)
        | ok confirmations ↦ pure (transaction_of hash confirmations)
      ]

add_satoshis-eq :
    (n : ℕ) (utxos : List Utxo)
    → All (λ u. neg_part u.satoshis ≡ 0) utxos
    → n + sum value utxos < 2 ^ 63
    → add_satoshis (pos n) utxos ≡ pos (n + sum value utxos)
unfolding add_satoshis
add_satoshis-eq n [] a h = ap pos (omega arith)
add_satoshis-eq n (u ∷ rest) (nonneg, a) h =
    ap (λ (z : ℤ). add_satoshis z rest) (add_coin n u nonneg (omega arith))
    ∙ add_satoshis-eq (n + value u) rest a (omega (arith, h))
    ∙ ap pos (omega arith)

spendable-All :
    (tip : ℤ) (utxos : List Utxo)
    → All (λ u. neg_part u.satoshis ≡ 0) utxos
    → All (λ u. neg_part u.satoshis ≡ 0) (spendable tip utxos)
unfolding spendable
spendable-All tip [] a = tt
spendable-All tip (u ∷ rest) (h, a) = elim (Bool-cases (immature tip u)) [
  | inl young ↦ rw young (spendable-All tip rest a)
  | inr old ↦ rw old (h, spendable-All tip rest a)
]

spendable_le : (tip : ℤ) (utxos : List Utxo) → sum value (spendable tip utxos) ≤ sum value utxos
unfolding spendable
spendable_le tip [] = omega arith
spendable_le tip (u ∷ rest) = elim (Bool-cases (immature tip u)) [
  | inl young ↦ rw young (omega (arith, spendable_le tip rest))
  | inr old ↦ rw old (omega (arith, spendable_le tip rest))
]

pub spendable-IsMoney :
    (tip : ℤ) (utxos : List Utxo) → IsMoney utxos → IsMoney (spendable tip utxos)
spendable-IsMoney tip utxos m = record {
  nonneg = spendable-All tip utxos m.nonneg;
  fits = omega (arith, spendable_le tip utxos, m.fits);
}

-- For coins whose amounts are not negative and fit an int64 together, the balance is their exact
-- sum, those that are not mature included: a selection from the mature ones has at most that total.
pub balance_of-eq :
    (sort : List Utxo → List Utxo) (utxos : List Utxo)
    → IsSort sort
    → IsMoney utxos
    → ((balance_of utxos).base ≡ some (pos (sum value utxos)))
      × ((tip need : ℤ) (picked : List Utxo) (total : ℤ)
          → select_utxos sort (spendable tip utxos) need ≡ ok (picked, total)
          → total ≤ℤ pos (sum value utxos))
unfolding balance_of
balance_of-eq sort utxos s m = (
  ap some (add_satoshis-eq 0 utxos m.nonneg (omega (arith, m.fits)) ∙ ap pos (omega arith)),
  λ tip need picked total h.
      let fewer = spendable_le tip utxos in
      let found = select_utxos-eq_ok s (spendable-IsMoney tip utxos m) need h in
      let total_is : total ≡ pos (sum value picked) = found.2 in
      rw total_is (omega (arith, fewer, sum-perm value found.1, sum-append value picked found.0)),
)
