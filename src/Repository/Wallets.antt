-- ===== src/Repository/Wallets.antt =====
-- internal/adapter/repository/postgres.go: wallets in the tables wallets and accounts. `column` is
-- how a TIMESTAMPTZ column keeps a time. A SELECT gives the rows in the order of the table.
pub mod Rows
pub mod Accounts
pub mod Saving
pub mod Reading
pub mod Listing
use Prim.Native.Nat.{ℕ}
use Prim.Native.String.{String}
use mathlib.Core.Bool.{Bool, not, ◌&&◌}
use mathlib.Core.List.{List, [], map, ◌++◌, ◌∷◌}
use mathlib.Core.Option.{Option, none, some}
use omnicatena.Base.{if◌then◌else◌, string_eq, ◌==◌}
use omnicatena.Base.Exec.{Exec, attempt, lift, pure, wrapped, ◌>>=◌, ◌>>◌}
use omnicatena.Base.Result.{Error, Result, err, errorf, is_error, ok, sentinel, str, wrapf}
use omnicatena.Domain.{Account, Address, ChainId, Wallet}
use omnicatena.Repository.Tables.{AccountRow, Db, Tables, WalletRow, statement, transaction}

-- The rows that a WHERE clause or a key selects, the other rows, and the first of the former.
unfoldable pub rows_where {ℓ} : {A : Type ℓ} → (A → Bool) → List A → List A
rows_where p [] = []
rows_where p (r ∷ rest) = let found = rows_where p rest in if p r then r ∷ found else found

unfoldable pub find_row {ℓ} : {A : Type ℓ} → (A → Bool) → List A → Option A
find_row p [] = none
find_row p (r ∷ rest) = let found = find_row p rest in if p r then some r else found

-- An update of the rows that `p` selects to `r`.
unfoldable pub replace_rows {ℓ} : {A : Type ℓ} → (A → Bool) → A → List A → List A
replace_rows p r rows = rows_where (λ x. not (p x)) rows ++ r ∷ []

abbrev pub unique_violation : Error
unique_violation = sentinel "23505"

abbrev pub has_id : String → WalletRow → Bool
has_id id r = r.id == id

abbrev pub has_key : String → ChainId → AccountRow → Bool
has_key wallet_id chain r = r.wallet_id == wallet_id && r.chain == chain

abbrev pub belongs_to : String → AccountRow → Bool
belongs_to wallet_id r = r.wallet_id == wallet_id

abbrev pub has_address : ChainId → Address → AccountRow → Bool
has_address chain address r = r.chain == chain && r.address == address

abbrev pub account_row : String → Account → AccountRow
account_row wallet_id acc = record {
  wallet_id = wallet_id;
  chain = acc.chain;
  address = acc.address;
  derivation_path = acc.path;
}

abbrev pub to_account : AccountRow → Account
to_account r = record { chain = r.chain; address = r.address; path = r.derivation_path }

-- ON CONFLICT (id) DO UPDATE SET label = EXCLUDED.label
abbrev pub relabelled : WalletRow → Option WalletRow → WalletRow
relabelled new none = new
relabelled new (some old) = record old { label = new.label }

-- INSERT INTO accounts … ON CONFLICT (wallet_id, chain) DO UPDATE. The index on (chain, address) is
-- unique.
unfoldable pub upsert_account : String → Account → Tables → Result (Unit {0} × Tables)
upsert_account wallet_id acc t =
    elim (find_row (has_address acc.chain acc.address)
      (rows_where (λ r. not (has_key wallet_id acc.chain r)) t.accounts)) [
        | some other ↦ err unique_violation
        | none ↦ ok (
          tt,
          record t {
            accounts =
                replace_rows (has_key wallet_id acc.chain) (account_row wallet_id acc) t.accounts;
          },
        )
      ]

-- The loop over the accounts in Save.
unfoldable pub save_accounts : String → List Account → Exec Db (Unit {0})
save_accounts wallet_id [] = pure tt
save_accounts wallet_id (acc ∷ rest) =
    wrapped "repository: save account %s/%s: %w" (str wallet_id ∷ str acc.chain ∷ [])
      (statement (upsert_account wallet_id acc))
    >> save_accounts wallet_id rest

-- SELECT chain, address, derivation_path FROM accounts WHERE wallet_id = $1
unfoldable pub accounts_for : String → Exec Db (List Account)
accounts_for wallet_id =
    wrapped "repository: list accounts for %s: %w" (str wallet_id ∷ [])
      (statement (λ t. ok (map to_account (rows_where (belongs_to wallet_id) t.accounts), t)))

module _ (column : ℕ → ℕ) where
  abbrev pub wallet_row : Wallet → WalletRow
  wallet_row w = record { id = w.id; label = w.label; created_at = column w.created_at }

  -- INSERT INTO wallets … ON CONFLICT (id) DO UPDATE
  unfoldable pub upsert_wallet : Wallet → Tables → Result (Unit {0} × Tables)
  upsert_wallet w t = ok (
    tt,
    record t {
      wallets =
          replace_rows (has_id w.id) (relabelled (wallet_row w) (find_row (has_id w.id) t.wallets))
            t.wallets;
    },
  )

  unfoldable pub save : Wallet → Exec Db (Unit {0})
  save w = transaction (
      wrapped "repository: save wallet %s: %w" (str w.id ∷ []) (statement (upsert_wallet w))
      >> save_accounts w.id w.accounts)

unfoldable pub missing_or : String → Error → Error
missing_or id e =
    if is_error e "ErrNoRows"
    then errorf "repository: wallet %s not found" (str id ∷ [])
    else wrapf "repository: get wallet %s: %w" (str id ∷ []) e

-- SELECT id, label, created_at FROM wallets WHERE id = $1, by QueryRow
unfoldable pub select_wallet : String → Tables → Result (WalletRow × Tables)
select_wallet id t = elim (find_row (has_id id) t.wallets) [
  | none ↦ err (sentinel "ErrNoRows")
  | some r ↦ ok (r, t)
]

abbrev pub to_wallet : WalletRow → List Account → Wallet
to_wallet r accounts = record {
  id = r.id;
  label = r.label;
  created_at = r.created_at;
  accounts = accounts;
}

or_missing : String → Result WalletRow → Result WalletRow
unfolding missing_or
or_missing id (ok r) = ok r
or_missing id (err e) = err (missing_or id e)

unfoldable pub get : String → Exec Db Wallet
unfolding or_missing
get id = do
  found ← attempt (statement (select_wallet id))
  row ← lift (or_missing id found)
  accounts ← accounts_for id
  pure (to_wallet row accounts)

-- The second loop of List.
unfoldable pub fill_accounts : List WalletRow → Exec Db (List Wallet)
fill_accounts [] = pure []
fill_accounts (r ∷ rest) = do
  accounts ← accounts_for r.id
  wallets ← fill_accounts rest
  pure (to_wallet r accounts ∷ wallets)

unfoldable pub list : Exec Db (List Wallet)
list = do
  rows ← wrapped "repository: list wallets: %w" [] (statement (λ t. ok (t.wallets, t)))
  fill_accounts rows
