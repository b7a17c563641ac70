-- ===== src/Repository/Wallets/Accounts.antt =====
-- The loop over the accounts in Save of internal/adapter/repository/postgres.go.
use Prim.Native.String.{String}
use mathlib.Core.Bool.{false, not, true}
use mathlib.Core.List.{List, [], ◌∷◌}
use mathlib.Core.Logic.{inl, inr, ◌≢◌}
use mathlib.Core.Option.{Option, none, some}
use mathlib.Core.Path.{ap, refl, subst, sym, ◌∙◌, ◌≡◌}
use native.Mathlib.Omega.{arith}
use omnicatena.Base.{==_false, ==_refl, Bool-cases, if◌then◌else◌, string_eq, ◌==◌}
use omnicatena.Base.Result.{Result, err, ok, str}
use omnicatena.Domain.{Account, ChainId}
use omnicatena.Repository.Tables.{AccountRow, Db, Tables, statement-bind-inv}
use omnicatena.Repository.Wallets.{
  account_row, belongs_to, find_row, has_address, has_key, replace_rows, rows_where, save_accounts,
  unique_violation, upsert_account,
}
use omnicatena.Repository.Wallets.Rows.{find_row-kept, find_row-replace_rows, rows_where-kept}

-- The row of a chain after `accounts` were saved one by one over `old`.
abbrev pub newest : String → ChainId → List Account → Option AccountRow → Option AccountRow
newest id chain [] old = old
newest id chain (a ∷ rest) old =
    newest id chain rest (if a.chain == chain then some (account_row id a) else old)

-- What saving the accounts of a wallet does to the tables `s`.
pub record SavedAccounts (id : String) (accounts : List Account) (s t : Tables) : Type 0 where
  pub rows :
      (chain : ChainId)
      → find_row (has_key id chain) t.accounts
        ≡ newest id chain accounts (find_row (has_key id chain) s.accounts)
  pub others :
      (other : String)
      → id ≢ other
      → rows_where (belongs_to other) t.accounts ≡ rows_where (belongs_to other) s.accounts
  pub wallets : t.wallets ≡ s.wallets
  pub transactions : t.transactions ≡ s.transactions
  pub tx_addresses : t.tx_addresses ≡ s.tx_addresses

key-apart :
    (id other : String) (chain : ChainId)
    → id ≢ other
    → (r : AccountRow) → belongs_to other r ≡ true
    → has_key id chain r ≡ false
key-apart id other chain ne r h =
    let e : r.wallet_id ≡ other = (string_eq.beq_iff r.wallet_id other).0 h in
    rw (==_false r.wallet_id id (λ f. ne (sym f ∙ e))) refl

chain-apart :
    (id : String) (c chain : ChainId)
    → (c == chain) ≡ false
    → (r : AccountRow) → has_key id chain r ≡ true
    → has_key id c r ≡ false
chain-apart id c chain ne r h = elim (Bool-cases (r.chain == c)) [
  | inr e ↦ rw e (ground arith)
  | inl e ↦
      let f : r.chain ≡ c = (string_eq.beq_iff r.chain c).0 e in
      absurd (
        let bad : (r.chain == chain) ≡ false = subst (λ x. (x == chain) ≡ false) (sym f) ne in
        ground arith)
]

upsert_account-row :
    (id : String) (acc : Account) (chain : ChainId) (rows : List AccountRow)
    → find_row (has_key id chain) (replace_rows (has_key id acc.chain) (account_row id acc) rows)
      ≡ (if acc.chain == chain then some (account_row id acc) else find_row (has_key id chain) rows)
upsert_account-row id acc chain rows = elim (Bool-cases (acc.chain == chain)) [
  | inl e ↦
      let f : acc.chain ≡ chain = (string_eq.beq_iff acc.chain chain).0 e in
      rw e (
        subst
          (λ c.
            find_row (has_key id c) (replace_rows (has_key id acc.chain) (account_row id acc) rows)
            ≡ some (account_row id acc))
          f
          (find_row-replace_rows (has_key id acc.chain) (account_row id acc) rows
            (rw (==_refl id, ==_refl acc.chain) refl)))
  | inr e ↦ rw e (
      find_row-kept (has_key id chain) (has_key id acc.chain) (chain-apart id acc.chain chain e)
        (account_row id acc) rows (rw (==_refl id, e) refl))
]

-- One account.
upsert_account-SavedAccounts :
    (id : String) (acc : Account) (s t : Tables)
    → upsert_account id acc s ≡ ok (tt, t)
    → SavedAccounts id (acc ∷ []) s t
unfolding upsert_account
upsert_account-SavedAccounts id acc s t h =
    go
      (find_row (has_address acc.chain acc.address)
        (rows_where (λ r. not (has_key id acc.chain r)) s.accounts))
      h
  where
    after : Tables
    after = record s {
      accounts = replace_rows (has_key id acc.chain) (account_row id acc) s.accounts;
    }

    made : SavedAccounts id (acc ∷ []) s after
    made = record {
      rows = λ chain. upsert_account-row id acc chain s.accounts;
      others = λ other ne.
          rows_where-kept (belongs_to other) (has_key id acc.chain)
            (key-apart id other acc.chain ne) (account_row id acc) s.accounts
            (==_false id other ne);
      wallets = refl;
      transactions = refl;
      tx_addresses = refl;
    }

    go :
        (o : Option AccountRow)
        → ◌≡◌ {A = Result (Unit {0} × Tables)}
            (elim o [ some other ↦ err unique_violation | none ↦ ok (tt, after) ])
            (ok (tt, t))
        → SavedAccounts id (acc ∷ []) s t
    go none e = subst (SavedAccounts id (acc ∷ []) s) (cc) made
    go (some other) e = absurd (cc)

pub save_accounts-SavedAccounts :
    (id : String) (accounts : List Account) (s t : Db)
    → save_accounts id accounts s ≡ (ok tt, t)
    → SavedAccounts id accounts s.tables t.tables
unfolding save_accounts
save_accounts-SavedAccounts id [] s t h =
    let e : s ≡ t = ap (λ x. x.1) h in
    subst (λ x. SavedAccounts id [] s.tables x.tables) e
      (record {
        rows = λ chain. refl;
        others = λ other ne. refl;
        wallets = refl;
        transactions = refl;
        tx_addresses = refl;
      })
save_accounts-SavedAccounts id (acc ∷ rest) s t h =
    statement-bind-inv "repository: save account %s/%s: %w" (str id ∷ str acc.chain ∷ [])
      (upsert_account id acc) (λ _. save_accounts id rest) s h
      (λ _ u first rest_ran.
        let one = upsert_account-SavedAccounts id acc s.tables u.tables first in
        let more = save_accounts-SavedAccounts id rest u t rest_ran in
        record {
          rows = λ chain. more.rows chain ∙ ap (newest id chain rest) (one.rows chain);
          others = λ other ne. more.others other ne ∙ one.others other ne;
          wallets = more.wallets ∙ one.wallets;
          transactions = more.transactions ∙ one.transactions;
          tx_addresses = more.tx_addresses ∙ one.tx_addresses;
        })
