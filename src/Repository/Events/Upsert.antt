-- ===== src/Repository/Events/Upsert.antt =====
-- The statement on transactions of SaveEvent, once and a second time.
use Prim.Native.Nat.{ℕ}
use mathlib.Core.Bool.{Bool, not, true}
use mathlib.Core.List.{List, [], ◌++◌, ◌∷◌}
use mathlib.Core.Logic.{inl, inr}
use mathlib.Core.Option.{Option, none, some}
use mathlib.Core.Path.{ap, ap₂, refl, sym, ◌∙◌, ◌≡◌}
use omnicatena.Base.{==_refl, Bool-cases}
use omnicatena.Base.Int.{ℤ}
use omnicatena.Base.Result.{Result, err, ok}
use omnicatena.Domain.{TxEvent}
use omnicatena.Repository.Events.{
  has_hash, numeric, put_transaction, transaction_row, updated, upsert_transaction,
}
use omnicatena.Repository.Tables.{Tables, TransactionRow}
use omnicatena.Repository.Wallets.{find_row, replace_rows, rows_where}
use omnicatena.Repository.Wallets.Rows.{find_row-holds, find_row-replace_rows}

rows_where-twice :
    {A : Type 0} (p : A → Bool) (r : A) (xs : List A)
    → (p r ≡ true)
    → rows_where (λ x. not (p x)) (replace_rows p r xs) ≡ rows_where (λ x. not (p x)) xs
unfolding rows_where replace_rows
rows_where-twice p r [] h = rw h refl
rows_where-twice p r (x ∷ xs) h = elim (Bool-cases (p x)) [
  | inl e ↦ rw e (rows_where-twice p r xs h)
  | inr e ↦ rw (e, e) (ap (◌∷◌ x) (rows_where-twice p r xs h))
]

-- A row that replaces one of its key, which had replaced the rows of the key.
replace_rows-twice :
    {A : Type 0} (p : A → Bool) (r new : A) (xs : List A)
    → (p r ≡ true)
    → replace_rows p new (replace_rows p r xs) ≡ replace_rows p new xs
unfolding replace_rows
replace_rows-twice p r new xs h = ap (λ rows. rows ++ new ∷ []) (rows_where-twice p r xs h)

pub updated-has_hash :
    (evt : TxEvent) (id now : ℕ) (z : ℤ) (rows : List TransactionRow)
    → has_hash evt.chain evt.hash
        (updated (transaction_row id now evt z) (find_row (has_hash evt.chain evt.hash) rows))
      ≡ true
unfolding transaction_row
updated-has_hash evt id now z rows = go (find_row (has_hash evt.chain evt.hash) rows) refl
  where
    go :
        (o : Option TransactionRow)
        → find_row (has_hash evt.chain evt.hash) rows ≡ o
        → has_hash evt.chain evt.hash (updated (transaction_row id now evt z) o) ≡ true
    go none e = rw (==_refl evt.chain, ==_refl evt.hash) refl
    go (some old) e = find_row-holds (has_hash evt.chain evt.hash) rows e

updated-twice :
    (evt : TxEvent) (id other now later : ℕ) (z : ℤ) (o : Option TransactionRow)
    → updated (transaction_row other later evt z) (some (updated (transaction_row id now evt z) o))
      ≡ updated (transaction_row id later evt z) o
unfolding transaction_row
updated-twice evt id other now later z none = refl
updated-twice evt id other now later z (some old) = refl

updated-id :
    (evt : TxEvent) (id now later : ℕ) (z : ℤ) (o : Option TransactionRow)
    → (updated (transaction_row id later evt z) o).id
      ≡ (updated (transaction_row id now evt z) o).id
unfolding transaction_row
updated-id evt id now later z none = refl
updated-id evt id now later z (some old) = refl

-- The statement on transactions a second time, with a later time: the row is what the statement
-- would make of it had it not been there before, and it has the same id.
pub upsert_transaction-twice :
    (id other now later : ℕ) (evt : TxEvent) (s t u : Tables) (tx_id : ℕ)
    → upsert_transaction id now evt s ≡ ok (tx_id, t)
    → u.transactions ≡ t.transactions
    → (v : List TransactionRow) × (upsert_transaction other later evt u
        ≡ ok (tx_id, record u { transactions = v }))
      × (upsert_transaction id later evt s ≡ ok (tx_id, record s { transactions = v }))
unfolding upsert_transaction
upsert_transaction-twice id other now later evt s t u tx_id h same = go (numeric evt.amount.base) h
  where
    p : TransactionRow → Bool
    p = has_hash evt.chain evt.hash

    old : Option TransactionRow
    old = find_row p s.transactions

    go :
        (r : Result ℤ)
        → ◌≡◌ {A = Result (ℕ × Tables)}
            (elim r [
              | err e ↦ err e
              | ok z ↦ put_transaction evt (updated (transaction_row id now evt z) old) s
            ])
            (ok (tx_id, t))
        → (v : List TransactionRow) × (◌≡◌ {A = Result (ℕ × Tables)}
            (elim r [
              | err e ↦ err e
              | ok z ↦
                  put_transaction evt
                    (updated (transaction_row other later evt z) (find_row p u.transactions))
                    u
            ])
            (ok (tx_id, record u { transactions = v })))
          × (◌≡◌ {A = Result (ℕ × Tables)}
              (elim r [
                | err e ↦ err e
                | ok z ↦ put_transaction evt (updated (transaction_row id later evt z) old) s
              ])
              (ok (tx_id, record s { transactions = v })))
    go (err e) k = absurd (cc)
    go (ok z) k =
        let first = updated (transaction_row id now evt z) old in
        let row = updated (transaction_row id later evt z) old in
        let held = updated-has_hash evt id now z s.transactions in
        let written : u.transactions ≡ replace_rows p first s.transactions =
          same ∙ sym (ap (λ x. elim x [ ok (_, v) ↦ v.transactions | err _ ↦ t.transactions ]) k) in
        let found : find_row p u.transactions ≡ some first =
          ap (find_row p) written ∙ find_row-replace_rows p first s.transactions held in
        let named : row.id ≡ tx_id =
          updated-id evt id now later z old
          ∙ ap (λ x. elim x [ ok (i, _) ↦ i | err _ ↦ tx_id ]) k in
        let rows : replace_rows p row u.transactions ≡ replace_rows p row s.transactions =
          ap (replace_rows p row) written ∙ replace_rows-twice p first row s.transactions held in
        (
          replace_rows p row s.transactions,
          ap (λ o. put_transaction evt (updated (transaction_row other later evt z) o) u) found
              ∙ ap (λ r. put_transaction evt r u) (updated-twice evt id other now later z old)
              ∙ ap₂ (λ i v. ok (i, record u { transactions = v })) named rows,
          ap (λ i. ok (i, record s { transactions = replace_rows p row s.transactions })) named,
        )
