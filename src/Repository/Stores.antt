-- ===== src/Repository/Stores.antt =====
-- The repositories as the ports that the use cases call: memory.go, postgres.go,
-- transaction_postgres.go and cursor_postgres.go of internal/adapter/repository. `clock` is the
-- server's NOW(), and `column` what a time is in a column of the database.
use Prim.Native.Nat.{ℕ}
use omnicatena.Port.{ChainCursorStore, TransactionRepository, WalletRepository}
use omnicatena.Repository.Cursor
use omnicatena.Repository.Cursor.{CursorTable}
use omnicatena.Repository.Events.{save_event}
use omnicatena.Repository.Memory
use omnicatena.Repository.Memory.{Wallets}
use omnicatena.Repository.Tables.{Db}
use omnicatena.Repository.Wallets
use omnicatena.Repository.Wallets.{save}

-- `range` is the order in which Go ranges over a map.
abbrev pub memory_wallets : (Wallets → Wallets) → WalletRepository Wallets
memory_wallets range = record { save = Memory.save; get = Memory.get; list = Memory.list range }

abbrev pub postgres_wallets : (ℕ → ℕ) → WalletRepository Db
postgres_wallets column = record { save = save column; get = Wallets.get; list = Wallets.list }

abbrev pub postgres_transactions : (Db → ℕ) → TransactionRepository Db
postgres_transactions clock = record {
  save_event = λ wallet_id evt db. save_event (clock db) wallet_id evt db;
}

abbrev pub postgres_cursors : {S : Type 0} → CursorTable S → ChainCursorStore S
postgres_cursors table = record { get = Cursor.get table; set = Cursor.set table }
