-- ===== src/Repository/Tables.antt =====
-- The tables of db/schema.sql that internal/adapter/repository/postgres.go and
-- transaction_postgres.go use, and how a statement and a transaction run on them. A table is the list
-- of its rows. PostgreSQL writes an updated row anew, so that it stands at the end.
use Prim.Native.Nat.{ℕ}
use Prim.Native.String.{String}
use mathlib.Core.List.{List, [], ◌∷◌}
use mathlib.Core.Logic.{inl, inr, ◌⊎◌}
use mathlib.Core.Option.{Option}
use mathlib.Core.Path.{refl, ◌≡◌}
use omnicatena.Base.Bytes.{Bytes}
use omnicatena.Base.Exec.{Exec, bind-inv, continue, wrapped, wrapped-inv, ◌>>=◌, ◌>>◌}
use omnicatena.Base.Int.{ℤ}
use omnicatena.Base.Result.{Arg, Error, Result, err, ok, wrap, wrapf}
use omnicatena.Domain.{TxStatus}

pub record WalletRow : Type 0 where
  pub id : String
  pub label : String
  pub created_at : ℕ

pub record AccountRow : Type 0 where
  pub wallet_id : String
  pub chain : String
  pub address : String
  pub derivation_path : Bytes

-- The columns that no statement sets are left out.
pub record TransactionRow : Type 0 where
  pub id : ℕ
  pub chain : String
  pub hash : String
  pub status : TxStatus
  pub from_address : Option String
  pub to_address : Option String
  pub amount : ℤ
  pub asset_symbol : String
  pub block_height : Option ℤ
  pub confirmed_at : Option ℕ

pub record LinkRow : Type 0 where
  pub tx_id : ℕ
  pub wallet_id : String
  pub chain : String
  pub address : String
  pub role : String

pub record Tables : Type 0 where
  pub wallets : List WalletRow
  pub accounts : List AccountRow
  pub transactions : List TransactionRow
  pub tx_addresses : List LinkRow

-- What becomes of a call of the server: it is done, it is refused and has no effect, or it is done
-- but its answer is lost.
pub data Answer : Type 0 where
  done : Answer
  refused unanswered : Error → Answer

-- `next_id` is the sequence of transactions.id, and `answers` what becomes of the next calls; when
-- it is empty, all of them are done.
pub record Db : Type 0 where
  pub tables : Tables
  pub next_id : ℕ
  pub answers : List Answer

-- A database that does every call.
abbrev pub serving : Tables → ℕ → Db
serving t n = record { tables = t; next_id = n; answers = [] }

abbrev pub next_answer : List Answer → Answer × List Answer
next_answer [] = (done, [])
next_answer (a ∷ rest) = (a, rest)

module _ {A : Type 0} where
  abbrev pub settle : Answer → Result (A × Tables) → Db → Result A × Db
  settle done (ok (x, t)) db = (ok x, record db { tables = t })
  settle done (err e) db = (err e, db)
  settle (refused e) r db = (err e, db)
  settle (unanswered e) (ok (x, t)) db = (err e, record db { tables = t })
  settle (unanswered e) (err _) db = (err e, db)

  -- One statement, which gives an error or its answer and the tables after it.
  abbrev pub statement : (Tables → Result (A × Tables)) → Exec Db A
  statement run db =
      let (a, rest) = next_answer db.answers in
      settle a (run db.tables) (record db { answers = rest })

  -- tx.Commit(ctx)
  abbrev pub commit : Tables → Answer → A → Db → Result A × Db
  commit old done x db = (ok x, db)
  commit old (refused e) x db = (err e, record db { tables = old })
  commit old (unanswered e) x db = (err e, db)

  -- The end of a function whose transaction began with the tables `old`: Commit, or the deferred
  -- Rollback. A sequence is not rolled back.
  abbrev pub finish : Tables → Result A × Db → Result A × Db
  finish old (ok x, db) =
      let (a, rest) = next_answer db.answers in commit old a x (record db { answers = rest })
  finish old (err e, db) = (err e, record db { tables = old })

  pub statement-inv :
      (run : Tables → Result (A × Tables)) (s t : Db) {x : A}
      → statement run s ≡ (ok x, t)
      → run s.tables ≡ ok (x, t.tables)
  statement-inv run s t {x} h =
      go (next_answer s.answers).0 (run s.tables) (record s { answers = (next_answer s.answers).1 })
        h
    where
      go :
          (a : Answer) (r : Result (A × Tables)) (db : Db)
          → settle a r db ≡ (ok x, t)
          → r ≡ ok (x, t.tables)
      go done (ok (y, u)) db e = cc
      go done (err _) db e = absurd (cc)
      go (refused _) r db e = absurd (cc)
      go (unanswered _) (ok _) db e = absurd (cc)
      go (unanswered _) (err _) db e = absurd (cc)

-- A sequence that begins with a statement and succeeded, taken apart.
pub statement-bind-inv {ℓ} :
    {A B : Type 0} {C : Type ℓ} (f : String) (args : List Arg) (run : Tables → Result (A × Tables))
    (k : A → Exec Db B) (s : Db) {t : Db} {b : B}
    → (wrapped f args (statement run) >>= k) s ≡ (ok b, t)
    → ((a : A) (u : Db) → run s.tables ≡ ok (a, u.tables) → k a u ≡ (ok b, t) → C)
    → C
statement-bind-inv f args run k s h cont =
    bind-inv (wrapped f args (statement run)) k {s = s} h (λ a u first after.
      cont a u (statement-inv run s u (wrapped-inv f args (statement run) {s = s} first)) after)

module _ {A : Type 0} where
  -- `tx, err := r.pool.Begin(ctx)` … `defer tx.Rollback(ctx)` … `return tx.Commit(ctx)`
  unfoldable pub transaction : Exec Db A → Exec Db A
  transaction body db =
      (wrapped "repository: begin: %w" [] (statement (λ t. ok (tt, t))) >> λ started.
      finish db.tables (body started))
        db

  -- A transaction fails and leaves the tables as they were, or they become what its body makes of
  -- them when it does not fail: `P` says what that is.
  pub transaction_atomic :
      (P : Tables → Type 0) (body : Exec Db A) (s : Db)
      → ((b t : Db) (x : A) → b.tables ≡ s.tables → body b ≡ (ok x, t) → P t.tables)
      → P (transaction body s).1.tables
        ⊎ ((e : Error) × ((transaction body s).0 ≡ err e)
            × ((transaction body s).1.tables ≡ s.tables))
  unfolding transaction
  transaction_atomic P body s made =
      begun (next_answer s.answers).0 (record s { answers = (next_answer s.answers).1 }) refl
    where
      Outcome : Result A × Db → Type 0
      Outcome (r, t) = P t.tables ⊎ ((e : Error) × (r ≡ err e) × (t.tables ≡ s.tables))

      ended : (a : Answer) (x : A) (db : Db) → P db.tables → Outcome (commit s.tables a x db)
      ended done x db p = inl p
      ended (refused e) x db p = inr (e, refl, refl)
      ended (unanswered e) x db p = inl p

      ran :
          (r : Result A × Db) → ((x : A) → r.0 ≡ ok x → P r.1.tables) → Outcome (finish s.tables r)
      ran (ok x, db) p =
          ended (next_answer db.answers).0 x (record db { answers = (next_answer db.answers).1 })
            (p x refl)
      ran (err e, db) p = inr (e, refl, refl)

      begun :
          (a : Answer) (db : Db)
          → db.tables ≡ s.tables
          → Outcome (
              continue
                (
                  wrap "repository: begin: %w" [] (settle a (ok (tt, db.tables)) db).0,
                  (settle a (ok (tt, db.tables)) db).1,
                )
                (λ _ started. finish s.tables (body started)))
      begun done db e = ran (body db) (λ x h. made db (body db).1 x e (cc))
      begun (refused er) db e = inr (wrapf "repository: begin: %w" [] er, refl, e)
      begun (unanswered er) db e = inr (wrapf "repository: begin: %w" [] er, refl, e)
