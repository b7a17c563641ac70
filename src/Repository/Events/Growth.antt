-- ===== src/Repository/Events/Growth.antt =====
-- What SaveEvent of internal/adapter/repository/transaction_postgres.go leaves of the rows that are
-- there: it removes none, and gives none another id.
pub mod Upsert
pub mod Saving
use Prim.Native.Nat.{ℕ, ◌+◌}
use Prim.Native.String.{String}
use mathlib.Core.Bool.{Bool, false, true, ◌&&◌}
use mathlib.Core.List.{List, [], ◌∷◌}
use mathlib.Core.Logic.{inl, inr}
use mathlib.Core.Option.{Option, none, some}
use mathlib.Core.Path.{ap, refl, subst, sym, ◌∙◌, ◌≡◌}
use native.Mathlib.Omega.{arith}
use omnicatena.Base.{Bool-cases, Option-cases, string_eq, ◌==◌}
use omnicatena.Base.Exec.{wrapped, wrapped-inv, ◌>>=◌}
use omnicatena.Base.Int.{ℤ}
use omnicatena.Base.Result.{Result, err, ok, str}
use omnicatena.Domain.{Address, ChainId, TxEvent}
use omnicatena.Repository.Events.{
  has_hash, has_link, insert_link, insert_new, link, link_row, next_value, numeric, put_transaction,
  role_for, save_event, transaction_row, updated, upsert_transaction,
}
use omnicatena.Repository.Events.Links.{insert_link-new, insert_link-there}
use omnicatena.Repository.Events.Upsert.{updated-has_hash}
use omnicatena.Repository.Tables.{
  Db, LinkRow, Tables, TransactionRow, WalletRow, statement, statement-bind-inv, statement-inv,
  transaction_atomic,
}
use omnicatena.Repository.Wallets.{find_row, has_id, replace_rows}
use omnicatena.Repository.Wallets.Rows.{find_row-append_found, find_row-kept, find_row-replace_rows}

-- Every transaction of the first rows is among the second, with the same id.
abbrev pub KeepsTransactions : List TransactionRow → List TransactionRow → Type 0
KeepsTransactions xs ys =
    (chain : ChainId) (hash : String) (old : TransactionRow)
    → find_row (has_hash chain hash) xs ≡ some old
    → (row : TransactionRow) × (find_row (has_hash chain hash) ys ≡ some row) × (row.id ≡ old.id)

abbrev pub KeepsLinks : List LinkRow → List LinkRow → Type 0
KeepsLinks xs ys =
    (id : ℕ) (a : Address) (role : String) (old : LinkRow)
    → find_row (has_link id a role) xs ≡ some old
    → find_row (has_link id a role) ys ≡ some old

pub record Extends (s t : Tables) : Type 0 where
  pub transactions : KeepsTransactions s.transactions t.transactions
  pub links : KeepsLinks s.tx_addresses t.tx_addresses

pub Extends-refl : (s : Tables) → Extends s s
Extends-refl s = record {
  transactions = λ chain hash old h. (old, h, refl);
  links = λ id a role old h. h;
}

pub Extends-trans : (s t u : Tables) → Extends s t → Extends t u → Extends s u
Extends-trans s t u e f = record {
  transactions = λ chain hash old h.
      let (row, found, same) = e.transactions chain hash old h in
      let (later, found', same') = f.transactions chain hash row found in
      (later, found', same' ∙ same);
  links = λ id a role old h. f.links id a role old (e.links id a role old h);
}
