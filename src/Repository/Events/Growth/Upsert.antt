-- ===== src/Repository/Events/Growth/Upsert.antt =====
-- The upsert of a transaction keeps the rows that are there.
use Prim.Native.Nat.{ℕ}
use Prim.Native.String.{String}
use mathlib.Core.Bool.{Bool, false, true, ◌&&◌}
use mathlib.Core.List.{List}
use mathlib.Core.Logic.{inl, inr}
use mathlib.Core.Option.{Option, some}
use mathlib.Core.Path.{ap, refl, subst, sym, ◌∙◌, ◌≡◌}
use native.Mathlib.Omega.{arith}
use omnicatena.Base.{Bool-cases, string_eq, ◌==◌}
use omnicatena.Base.Int.{ℤ}
use omnicatena.Base.Result.{Result, err, ok}
use omnicatena.Domain.{ChainId, TxEvent}
use omnicatena.Repository.Events.{
  has_hash, numeric, put_transaction, transaction_row, updated, upsert_transaction,
}
use omnicatena.Repository.Events.Growth.{KeepsTransactions}
use omnicatena.Repository.Events.Upsert.{updated-has_hash}
use omnicatena.Repository.Tables.{Tables, TransactionRow}
use omnicatena.Repository.Wallets.{find_row, replace_rows}
use omnicatena.Repository.Wallets.Rows.{find_row-kept, find_row-replace_rows}

updated-id :
    (new old : TransactionRow) (o : Option TransactionRow)
    → o ≡ some old
    → (updated new o).id ≡ old.id
updated-id new old o e = ap (λ x. (updated new x).id) e

and_false_left : {a b : Bool} → a ≡ true → (a && b) ≡ false → b ≡ false
and_false_left {a} {b} h k = rw h at k

and_false_right : {a b : Bool} → b ≡ true → (a && b) ≡ false → a ≡ false
and_false_right {a} {b} h k = ground arith

module _ (evt : TxEvent) where
  abbrev p : TransactionRow → Bool
  p = has_hash evt.chain evt.hash

  other_key :
      (chain : ChainId) (hash : String) (x : TransactionRow)
      → (evt.chain == chain && evt.hash == hash) ≡ false
      → (has_hash chain hash x && p x) ≡ false
  other_key chain hash x other = ground (
    arith,
    string_eq.beq_iff evt.chain chain,
    string_eq.beq_iff evt.hash hash,
    string_eq.beq_iff x.chain chain,
    string_eq.beq_iff x.hash hash,
    string_eq.beq_iff x.chain evt.chain,
    string_eq.beq_iff x.hash evt.hash,
  )

  -- The row of the event's transaction takes the place of the one with its chain and hash.
  replaced-keeps :
      (new : TransactionRow) (rows : List TransactionRow)
      → p (updated new (find_row p rows)) ≡ true
      → KeepsTransactions rows (replace_rows p (updated new (find_row p rows)) rows)
  replaced-keeps new rows held chain hash old h =
      elim (Bool-cases (evt.chain == chain && evt.hash == hash)) [
        | inl same ↦
            let c : evt.chain ≡ chain = ground (arith, string_eq.beq_iff evt.chain chain) in
            let d : evt.hash ≡ hash =
              ground (arith, string_eq.beq_iff evt.chain chain, string_eq.beq_iff evt.hash hash) in
            let found : find_row p rows ≡ some old = ap2 c d ∙ h in
            (
              row,
              sym (ap2' c d) ∙ find_row-replace_rows p row rows held,
              updated-id new old (find_row p rows) found,
            )
        | inr other ↦
            let apart = λ (x : TransactionRow). other_key chain hash x other in
            let elsewhere : has_hash chain hash row ≡ false = and_false_right held (apart row) in
            (
              old,
              find_row-kept (has_hash chain hash) p (λ x e. and_false_left e (apart x)) row rows
                    elsewhere
                  ∙ h,
              refl,
            )
      ]
    where
      row : TransactionRow
      row = updated new (find_row p rows)

      ap2 :
          evt.chain ≡ chain
          → evt.hash ≡ hash
          → find_row p rows ≡ find_row (has_hash chain hash) rows
      ap2 c d = λ i. find_row (has_hash (c i) (d i)) rows

      ap2' :
          evt.chain ≡ chain
          → evt.hash ≡ hash
          → find_row p (replace_rows p row rows)
            ≡ find_row (has_hash chain hash) (replace_rows p row rows)
      ap2' c d = λ i. find_row (has_hash (c i) (d i)) (replace_rows p row rows)

  pub upsert_transaction-keeps :
      (id now tx_id : ℕ) (s t : Tables)
      → upsert_transaction id now evt s ≡ ok (tx_id, t)
      → KeepsTransactions s.transactions t.transactions × (t.tx_addresses ≡ s.tx_addresses)
  unfolding upsert_transaction
  upsert_transaction-keeps id now tx_id s t h = go (numeric evt.amount.base) h
    where
      After : Result (ℕ × Tables) → Type 0
      After (err e) = Unit {0}
      After (ok (i, x)) =
          KeepsTransactions s.transactions x.transactions × (x.tx_addresses ≡ s.tx_addresses)

      go :
          (r : Result ℤ)
          → ◌≡◌ {A = Result (ℕ × Tables)}
              (elim r [
                | err e ↦ err e
                | ok z ↦
                    put_transaction evt
                      (updated (transaction_row id now evt z) (find_row p s.transactions))
                      s
              ])
              (ok (tx_id, t))
          → KeepsTransactions s.transactions t.transactions × (t.tx_addresses ≡ s.tx_addresses)
      go (err e) k = absurd (cc)
      go (ok z) k = subst After k (
        replaced-keeps (transaction_row id now evt z) s.transactions
            (updated-has_hash evt id now z s.transactions),
        refl,
      )
