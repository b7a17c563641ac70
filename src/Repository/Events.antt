-- ===== src/Repository/Events.antt =====
-- internal/adapter/repository/transaction_postgres.go: events in the tables transactions and
-- tx_addresses.
pub mod Upsert
pub mod Links
pub mod Again
pub mod Saving
pub mod Growth
use Prim.Native.Nat.{ℕ, ◌+◌, ◌^◌}
use Prim.Native.String.{String}
use mathlib.Core.Bool.{Bool, ◌&&◌}
use mathlib.Core.List.{List, [], ◌++◌, ◌∷◌}
use mathlib.Core.Option.{Option, none, some}
use omnicatena.Base.{eqb, if◌then◌else◌, ltb, string_eq, ◌==◌}
use omnicatena.Base.Exec.{Exec, pure, wrapped, ◌>>=◌, ◌>>◌}
use omnicatena.Base.Int.{neg_part, of_bits64, pos_part, ℤ}
use omnicatena.Base.Result.{Result, err, ok, sentinel, str}
use omnicatena.Domain.{
  Address, ChainId, TxEvent, TxEventType, TxStatus, confirmation, confirmed, inbound, outbound,
}
use omnicatena.Repository.Memory.{Wallets}
use omnicatena.Repository.Tables.{
  Db, LinkRow, Tables, TransactionRow, WalletRow, statement, transaction,
}
use omnicatena.Repository.Wallets.{find_row, has_id, replace_rows}

unfoldable pub non_empty : String → Option String
non_empty s = if s == "" then none else some s

-- The columns from_address and to_address.
unfoldable pub from_to : TxEvent → Option String × Option String
from_to evt = elim evt.kind [
  | outbound ↦ (some evt.address, non_empty evt.counterparty)
  | inbound ↦ (non_empty evt.counterparty, some evt.address)
  | confirmation ↦ (none, none)
]

unfoldable pub block_height_or_nil : ℕ → Option ℤ
block_height_or_nil h = if eqb h 0 then none else some (of_bits64 h)

abbrev pub role_for : TxEventType → Option String
role_for outbound = some "sender"
role_for inbound = some "receiver"
role_for confirmation = none

-- `evt.Amount.Base.String()` as a value of NUMERIC(78, 0). The text of a nil number is no number.
unfoldable pub numeric : Option ℤ → Result ℤ
numeric none = err (sentinel "22P02")
numeric (some z) = if ltb (pos_part z + neg_part z) (10 ^ 78) then ok z else err (sentinel "22003")

abbrev pub has_hash : ChainId → String → TransactionRow → Bool
has_hash chain hash r = r.chain == chain && r.hash == hash

abbrev pub has_link : ℕ → Address → String → LinkRow → Bool
has_link tx_id address role r = eqb r.tx_id tx_id && (r.address == address && r.role == role)

-- CASE WHEN $3 = 'confirmed' THEN NOW() ELSE NULL END
abbrev pub confirmed_time : ℕ → TxStatus → Option ℕ
confirmed_time now confirmed = some now
confirmed_time now _ = none

unfoldable pub transaction_row : ℕ → ℕ → TxEvent → ℤ → TransactionRow
transaction_row id now evt amount = record {
  id = id;
  chain = evt.chain;
  hash = evt.hash;
  status = evt.status;
  from_address = (from_to evt).0;
  to_address = (from_to evt).1;
  amount = amount;
  asset_symbol = evt.amount.asset.symbol;
  block_height = block_height_or_nil evt.block_height;
  confirmed_at = confirmed_time now evt.status;
}

-- ON CONFLICT (chain, hash) DO UPDATE SET status, block_height, confirmed_at
abbrev pub updated : TransactionRow → Option TransactionRow → TransactionRow
updated new none = new
updated new (some old) = record old {
  status = new.status;
  block_height = new.block_height;
  confirmed_at = new.confirmed_at;
}

abbrev pub put_transaction : TxEvent → TransactionRow → Tables → Result (ℕ × Tables)
put_transaction evt row t = ok (
  row.id,
  record t { transactions = replace_rows (has_hash evt.chain evt.hash) row t.transactions },
)

-- INSERT INTO transactions … RETURNING id
unfoldable pub upsert_transaction : ℕ → ℕ → TxEvent → Tables → Result (ℕ × Tables)
upsert_transaction id now evt t = elim (numeric evt.amount.base) [
  | err e ↦ err e
  | ok amount ↦
      put_transaction evt
        (updated (transaction_row id now evt amount)
          (find_row (has_hash evt.chain evt.hash) t.transactions))
        t
]

-- The sequence goes on whether the row is inserted or not.
unfoldable pub next_value : Exec Db ℕ
next_value db = (ok db.next_id, record db { next_id = db.next_id + 1 })

abbrev pub link_row : ℕ → String → TxEvent → String → LinkRow
link_row tx_id wallet_id evt role = record {
  tx_id = tx_id;
  wallet_id = wallet_id;
  chain = evt.chain;
  address = evt.address;
  role = role;
}

-- The insertion of a row whose wallet must have a row, and the one that does nothing where the key is
-- there.
abbrev pub insert_new : LinkRow → Option WalletRow → Tables → Result (Unit {0} × Tables)
insert_new row none t = err (sentinel "23503")
insert_new row (some w) t = ok (tt, record t { tx_addresses = t.tx_addresses ++ row ∷ [] })

abbrev pub unless_there :
    Option LinkRow → Tables → Result (Unit {0} × Tables) → Result (Unit {0} × Tables)
unless_there (some old) t r = ok (tt, t)
unless_there none t r = r

-- INSERT INTO tx_addresses … ON CONFLICT (tx_id, address, role) DO NOTHING
unfoldable pub insert_link : ℕ → String → TxEvent → String → Tables → Result (Unit {0} × Tables)
insert_link tx_id wallet_id evt role t =
    unless_there (find_row (has_link tx_id evt.address role) t.tx_addresses) t
      (insert_new (link_row tx_id wallet_id evt role) (find_row (has_id wallet_id) t.wallets) t)

-- `if role, ok := roleFor(evt.Type); ok { … }`
unfoldable pub link : ℕ → String → TxEvent → Option String → Exec Db (Unit {0})
link tx_id wallet_id evt none = pure tt
link tx_id wallet_id evt (some role) =
    wrapped "repository: link tx_addresses %s/%s: %w" (str evt.chain ∷ str evt.hash ∷ [])
      (statement (insert_link tx_id wallet_id evt role))

-- `now` is NOW(), the time at which the transaction began.
unfoldable pub save_event : ℕ → String → TxEvent → Exec Db (Unit {0})
unfolding next_value link
save_event now wallet_id evt = transaction (do
  id ← next_value
  tx_id ←
      wrapped "repository: save transaction %s/%s: %w" (str evt.chain ∷ str evt.hash ∷ [])
        (statement (upsert_transaction id now evt))
  link tx_id wallet_id evt (role_for evt.kind))
