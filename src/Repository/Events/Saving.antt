-- ===== src/Repository/Events/Saving.antt =====
-- SaveEvent of internal/adapter/repository/transaction_postgres.go, an `Exec` in one transaction.
use Prim.Native.Nat.{ℕ, ◌+◌}
use Prim.Native.String.{String}
use mathlib.Core.Bool.{Bool}
use mathlib.Core.List.{[], ◌∷◌}
use mathlib.Core.Logic.{inl, inr, ◌⊎◌}
use mathlib.Core.Option.{Option, none, some, some-injective}
use mathlib.Core.Path.{ap, refl, subst, sym, ◌∙◌, ◌≡◌}
use omnicatena.Base.{Option-cases}
use omnicatena.Base.Exec.{wrapped, wrapped-inv, ◌>>=◌}
use omnicatena.Base.Int.{ℤ}
use omnicatena.Base.Result.{Error, Result, err, ok, str}
use omnicatena.Domain.{TxEvent}
use omnicatena.Repository.Events.{
  block_height_or_nil, has_hash, has_link, insert_link, insert_new, link, link_row, next_value,
  numeric, put_transaction, role_for, save_event, transaction_row, updated, upsert_transaction,
}
use omnicatena.Repository.Events.Links.{find_row-linked, insert_link-new, insert_link-there}
use omnicatena.Repository.Events.Upsert.{updated-has_hash}
use omnicatena.Repository.Tables.{
  Db, LinkRow, Tables, TransactionRow, WalletRow, statement, statement-bind-inv, statement-inv,
  transaction_atomic,
}
use omnicatena.Repository.Wallets.{find_row, has_id, replace_rows}
use omnicatena.Repository.Wallets.Rows.{find_row-replace_rows}

-- The tables have the event: its transaction with its status and its block, and the link from the
-- transaction to the address for a side of a transfer.
abbrev pub Recorded : TxEvent → Tables → Type 0
Recorded evt t =
    (row : TransactionRow) × (find_row (has_hash evt.chain evt.hash) t.transactions ≡ some row)
    × (row.status ≡ evt.status)
    × (row.block_height ≡ block_height_or_nil evt.block_height)
    × ((role : String)
        → role_for evt.kind ≡ some role
        → (l : LinkRow) × (find_row (has_link row.id evt.address role) t.tx_addresses ≡ some l))

updated-fields :
    (evt : TxEvent) (id now : ℕ) (z : ℤ) (o : Option TransactionRow)
    → ((updated (transaction_row id now evt z) o).status ≡ evt.status)
      × ((updated (transaction_row id now evt z) o).block_height
          ≡ block_height_or_nil evt.block_height)
unfolding transaction_row
updated-fields evt id now z none = (refl, refl)
updated-fields evt id now z (some old) = (refl, refl)

upsert_transaction-row :
    (id now : ℕ) (evt : TxEvent) (s t : Tables) (tx_id : ℕ)
    → upsert_transaction id now evt s ≡ ok (tx_id, t)
    → (row : TransactionRow) × (find_row (has_hash evt.chain evt.hash) t.transactions ≡ some row)
      × (row.status ≡ evt.status)
      × (row.block_height ≡ block_height_or_nil evt.block_height)
      × (row.id ≡ tx_id)
unfolding upsert_transaction
upsert_transaction-row id now evt s t tx_id h = go (numeric evt.amount.base) h
  where
    p : TransactionRow → Bool
    p = has_hash evt.chain evt.hash

    go :
        (r : Result ℤ)
        → ◌≡◌ {A = Result (ℕ × Tables)}
            (elim r [
              | err e ↦ err e
              | ok z ↦
                  put_transaction evt
                    (updated (transaction_row id now evt z) (find_row p s.transactions))
                    s
            ])
            (ok (tx_id, t))
        → (row : TransactionRow) × (find_row p t.transactions ≡ some row)
          × (row.status ≡ evt.status)
          × (row.block_height ≡ block_height_or_nil evt.block_height)
          × (row.id ≡ tx_id)
    go (err e) k = absurd (cc)
    go (ok z) k =
        let row = updated (transaction_row id now evt z) (find_row p s.transactions) in
        let written : t.transactions ≡ replace_rows p row s.transactions =
          sym (ap (λ x. elim x [ ok (_, v) ↦ v.transactions | err _ ↦ t.transactions ]) k) in
        let (status, height) = updated-fields evt id now z (find_row p s.transactions) in
        (
          row,
          ap (find_row p) written
              ∙ find_row-replace_rows p row s.transactions
                  (updated-has_hash evt id now z s.transactions),
          status,
          height,
          ap (λ x. elim x [ ok (i, _) ↦ i | err _ ↦ tx_id ]) k,
        )

module _ (wallet_id : String) (evt : TxEvent) where
  insert_link-found :
      (tx_id : ℕ) (role : String) (s t : Tables)
      → insert_link tx_id wallet_id evt role s ≡ ok (tt, t)
      → (t.transactions ≡ s.transactions)
        × (l : LinkRow) × (find_row (has_link tx_id evt.address role) t.tx_addresses ≡ some l)
  insert_link-found tx_id role s t h =
      elim (Option-cases (find_row (has_link tx_id evt.address role) s.tx_addresses)) [
        | inr (old, e) ↦
            subst Found (result (sym (insert_link-there wallet_id evt tx_id role s e) ∙ h))
              (refl, old, e)
        | inl e ↦
            checked e (find_row (has_id wallet_id) s.wallets)
              (sym (insert_link-new wallet_id evt tx_id role s e) ∙ h)
      ]
    where
      new : LinkRow
      new = link_row tx_id wallet_id evt role

      result : {x : Tables} → ◌≡◌ {A = Result (Unit {0} × Tables)} (ok (tt, x)) (ok (tt, t)) → x ≡ t
      result {x} k = ap (λ r. elim r [ ok (_, y) ↦ y | err _ ↦ x ]) k

      Found : Tables → Type 0
      Found x =
          (x.transactions ≡ s.transactions)
          × (l : LinkRow) × (find_row (has_link tx_id evt.address role) x.tx_addresses ≡ some l)

      checked :
          find_row (has_link tx_id evt.address role) s.tx_addresses ≡ none
          → (w : Option WalletRow) → insert_new new w s ≡ ok (tt, t)
          → Found t
      checked e none k = absurd (cc)
      checked e (some w) k =
          subst Found (result k)
            (refl, new, find_row-linked wallet_id evt tx_id role s.tx_addresses e)

  link-found :
      (tx_id : ℕ) (given : Option String) (s t : Db)
      → link tx_id wallet_id evt given s ≡ (ok tt, t)
      → (t.tables.transactions ≡ s.tables.transactions)
        × ((role : String)
            → given ≡ some role
            → (l : LinkRow) × (find_row (has_link tx_id evt.address role) t.tables.tx_addresses
                ≡ some l))
  unfolding link
  link-found tx_id none s t h = (ap (λ x. x.1.tables.transactions) (sym h), λ role e. absurd (cc))
  link-found tx_id (some given) s t h =
      let k = statement-inv (insert_link tx_id wallet_id evt given) s t (
        wrapped-inv "repository: link tx_addresses %s/%s: %w" (str evt.chain ∷ str evt.hash ∷ [])
          (statement (insert_link tx_id wallet_id evt given)) {s = s} h) in
      let (kept, l, found) = insert_link-found tx_id given s.tables t.tables k in
      (
        kept,
        λ role e.
            subst
              (λ x.
                (l : LinkRow) × (find_row (has_link tx_id evt.address x) t.tables.tx_addresses
                  ≡ some l))
              (some-injective given role e) (l, found),
      )

  recorded :
      (id now tx_id : ℕ) (s : Tables) (u t : Db)
      → upsert_transaction id now evt s ≡ ok (tx_id, u.tables)
      → link tx_id wallet_id evt (role_for evt.kind) u ≡ (ok tt, t)
      → Recorded evt t.tables
  recorded id now tx_id s u t first second =
      let (row, found, status, height, named) =
        upsert_transaction-row id now evt s u.tables tx_id first in
      let (kept, linked) = link-found tx_id (role_for evt.kind) u t second in
      (
        row,
        ap (find_row (has_hash evt.chain evt.hash)) kept ∙ found,
        status,
        height,
        λ role e.
            subst
              (λ i.
                (l : LinkRow) × (find_row (has_link i evt.address role) t.tables.tx_addresses
                  ≡ some l))
              (sym named) (linked role e),
      )

  -- SaveEvent is all or nothing, whatever becomes of its statements: either it fails and the tables
  -- are as before, or they have the transaction with the event's status and block and, for a side of
  -- a transfer, a link from it to the watched address. When SaveEvent succeeds, it is the second.
  pub save_event_atomic :
      (now : ℕ) (s : Db)
      → Recorded evt (save_event now wallet_id evt s).1.tables
        ⊎ ((e : Error) × ((save_event now wallet_id evt s).0 ≡ err e)
            × ((save_event now wallet_id evt s).1.tables ≡ s.tables))
  unfolding save_event
  save_event_atomic now s =
      transaction_atomic (Recorded evt)
        (next_value >>= λ id.
          wrapped "repository: save transaction %s/%s: %w" (str evt.chain ∷ str evt.hash ∷ [])
            (statement (upsert_transaction id now evt))
          >>= λ tx_id. link tx_id wallet_id evt (role_for evt.kind))
        s
        (λ b t _ same ran.
          statement-bind-inv "repository: save transaction %s/%s: %w"
            (str evt.chain ∷ str evt.hash ∷ []) (upsert_transaction b.next_id now evt)
            (λ tx_id. link tx_id wallet_id evt (role_for evt.kind))
            (record b { next_id = b.next_id + 1 }) ran
            (λ tx_id u first second. recorded b.next_id now tx_id b.tables u t first second))
