-- ===== src/Repository/Wallets/Reading.antt =====
-- Get and List of internal/adapter/repository/postgres.go, after Save.

use Prim.Native.Nat.{ℕ}
use Prim.Native.String.{String}
use mathlib.Core.List.{List, [], map, ◌∷◌}
use mathlib.Core.Logic.{inl, inr, ◌≢◌}
use mathlib.Core.Option
use mathlib.Core.Option.{Option, none, some}
use mathlib.Core.Path.{ap, ap₂, refl, subst, sym, ◌∙◌, ◌≡◌}
use omnicatena.Base.{Bool-cases, string_eq, ◌==◌}
use omnicatena.Base.Result.{Result, err, errorf, is_error, ok, str}
use omnicatena.Domain.{ChainId, Wallet, account, find_account}
use omnicatena.Repository.Tables.{AccountRow, Db, Tables, WalletRow, serving}
use omnicatena.Repository.Wallets.{
  accounts_for, belongs_to, find_row, get, has_id, has_key, missing_or, relabelled, rows_where,
  save, select_wallet, to_account, to_wallet, wallet_row,
}
use omnicatena.Repository.Wallets.Accounts.{newest}
use omnicatena.Repository.Wallets.Saving.{Saved, save_atomic}

find_account-rows :
    (id : String) (chain : ChainId) (rows : List AccountRow)
    → find_account chain (map to_account (rows_where (belongs_to id) rows))
      ≡ Option.map to_account (find_row (has_key id chain) rows)
unfolding find_account rows_where find_row
find_account-rows id chain [] = refl
find_account-rows id chain (r ∷ rest) = elim (Bool-cases (r.wallet_id == id)) [
  | inr e ↦ rw e (find_account-rows id chain rest)
  | inl e ↦ elim (Bool-cases (r.chain == chain)) [
    | inl f ↦ rw (e, f) refl
    | inr f ↦ rw (e, f) (find_account-rows id chain rest)
  ]
]

abbrev pub wallet_read : String → List AccountRow → Option WalletRow → Result Wallet
wallet_read id rows none = err (errorf "repository: wallet %s not found" (str id ∷ []))
wallet_read id rows (some r) = ok (to_wallet r (map to_account rows))

relabelled-label :
    (new : WalletRow) (old : Option WalletRow) → (relabelled new old).label ≡ new.label
relabelled-label new none = refl
relabelled-label new (some old) = refl

pub get-eq :
    (id : String) (t : Tables) (n : ℕ)
    → (get id (serving t n)).0
      ≡ wallet_read id (rows_where (belongs_to id) t.accounts) (find_row (has_id id) t.wallets)
unfolding get accounts_for select_wallet missing_or is_error
get-eq id t n = go (find_row (has_id id) t.wallets) refl
  where
    go :
        (o : Option WalletRow)
        → find_row (has_id id) t.wallets ≡ o
        → (get id (serving t n)).0 ≡ wallet_read id (rows_where (belongs_to id) t.accounts) o
    go none e = rw (get, select_wallet, e) refl
    go (some r) e = rw (get, select_wallet, e) refl

-- What Get of a database that answers gives after the wallet was saved over the tables `s`.
abbrev pub Readable : (ℕ → ℕ) → Wallet → ℕ → Tables → Tables → Type 0
Readable column w n s t =
    ((got : Wallet) × ((get w.id (serving t n)).0 ≡ ok got)
      × (got.label ≡ w.label)
      × (got.created_at
          ≡ (relabelled (wallet_row column w) (find_row (has_id w.id) s.wallets)).created_at)
      × ((chain : ChainId)
          → account got chain
            ≡ Option.map to_account
                (newest w.id chain w.accounts (find_row (has_key w.id chain) s.accounts))))
    × ((other : String) → w.id ≢ other → (get other (serving t n)).0 ≡ (get other (serving s n)).0)

pub Saved-Readable :
    (column : ℕ → ℕ) (w : Wallet) (n : ℕ) (s t : Tables)
    → Saved column w s t
    → Readable column w n s t
unfolding account
Saved-Readable column w n s t saved =
    let old = find_row (has_id w.id) s.wallets in
    let row = relabelled (wallet_row column w) old in
    let mine = rows_where (belongs_to w.id) t.accounts in
    (
      (
        to_wallet row (map to_account mine),
        get-eq w.id t n ∙ ap (wallet_read w.id mine) saved.wallet,
        relabelled-label (wallet_row column w) old,
        refl,
        λ chain.
            find_account-rows w.id chain t.accounts
            ∙ ap (Option.map to_account) (saved.accounts chain),
      ),
      λ other ne.
          get-eq other t n
          ∙ ap₂ (wallet_read other) (saved.other_accounts other ne) (saved.other_wallets other ne)
          ∙ sym (get-eq other s n),
    )

-- After Save succeeded, whatever happened to the database's other calls, Get of a database that
-- answers gives the wallet with the saved label, the time at which it was first created, and for each
-- chain the last account that was saved for it; and Get of any other id gives what it gave before.
pub get_saved :
    (column : ℕ → ℕ) (w : Wallet) (s t : Db) (n : ℕ)
    → save column w s ≡ (ok tt, t)
    → Readable column w n s.tables t.tables
get_saved column w s t n h = elim (save_atomic column w s) [
  | inr (e, bad, _) ↦ absurd (cc)
  | inl made ↦
      Saved-Readable column w n s.tables t.tables
        (subst (λ x. Saved column w s.tables x.tables) (ap (λ x. x.1) h) made)
]
