-- ===== src/Repository/Wallets/Saving.antt =====
-- Save of internal/adapter/repository/postgres.go.
use Prim.Native.Nat.{ℕ}
use Prim.Native.String.{String}
use mathlib.Core.Bool.{false, true}
use mathlib.Core.List.{List, [], ◌∷◌}
use mathlib.Core.Logic.{◌≢◌, ◌⊎◌}
use mathlib.Core.Option.{Option, none, some}
use mathlib.Core.Path.{ap, refl, subst, sym, ◌∙◌, ◌≡◌}
use omnicatena.Base.{==_false, ==_refl, string_eq}
use omnicatena.Base.Exec.{wrapped, ◌>>◌}
use omnicatena.Base.Result.{Error, err, ok, str}
use omnicatena.Domain.{ChainId, Wallet}
use omnicatena.Repository.Tables.{
  Db, Tables, WalletRow, statement, statement-bind-inv, transaction_atomic,
}
use omnicatena.Repository.Wallets.{
  belongs_to, find_row, has_id, has_key, relabelled, replace_rows, rows_where, save, save_accounts,
  upsert_wallet, wallet_row,
}
use omnicatena.Repository.Wallets.Accounts.{SavedAccounts, newest, save_accounts-SavedAccounts}
use omnicatena.Repository.Wallets.Rows.{find_row-holds, find_row-kept, find_row-replace_rows}

-- What saving a wallet does to the tables `s`.
pub record Saved (column : ℕ → ℕ) (w : Wallet) (s t : Tables) : Type 0 where
  pub wallet :
      find_row (has_id w.id) t.wallets
      ≡ some (relabelled (wallet_row column w) (find_row (has_id w.id) s.wallets))
  pub other_wallets :
      (other : String)
      → w.id ≢ other
      → find_row (has_id other) t.wallets ≡ find_row (has_id other) s.wallets
  pub accounts :
      (chain : ChainId)
      → find_row (has_key w.id chain) t.accounts
        ≡ newest w.id chain w.accounts (find_row (has_key w.id chain) s.accounts)
  pub other_accounts :
      (other : String)
      → w.id ≢ other
      → rows_where (belongs_to other) t.accounts ≡ rows_where (belongs_to other) s.accounts
  pub transactions : t.transactions ≡ s.transactions
  pub tx_addresses : t.tx_addresses ≡ s.tx_addresses

has_id-apart :
    (id other : String) → id ≢ other → (r : WalletRow) → has_id other r ≡ true → has_id id r ≡ false
has_id-apart id other ne r h =
    let e : r.id ≡ other = (string_eq.beq_iff r.id other).0 h in
    ==_false r.id id (λ f. ne (sym f ∙ e))

module _ (column : ℕ → ℕ) where
  upsert_wallet-lookup :
      (w : Wallet) (other : String) (rows : List WalletRow)
      → (new : WalletRow) → new.id ≡ w.id
      → w.id ≢ other
      → find_row (has_id other) (replace_rows (has_id w.id) new rows) ≡ find_row (has_id other) rows
  upsert_wallet-lookup w other rows new e ne =
      find_row-kept (has_id other) (has_id w.id) (has_id-apart w.id other ne) new rows
        (==_false new.id other (λ f. ne (sym e ∙ f)))

  relabelled-id :
      (new : WalletRow) (rows : List WalletRow)
      → (relabelled new (find_row (has_id new.id) rows)).id ≡ new.id
  relabelled-id new rows = go (find_row (has_id new.id) rows) refl
    where
      go :
          (o : Option WalletRow)
          → find_row (has_id new.id) rows ≡ o
          → (relabelled new o).id ≡ new.id
      go none e = refl
      go (some old) e = (string_eq.beq_iff old.id new.id).0 (find_row-holds (has_id new.id) rows e)

  upsert_wallet-Saved :
      (w : Wallet) (s u t : Tables)
      → upsert_wallet column w s ≡ ok (tt, u)
      → SavedAccounts w.id w.accounts u t
      → Saved column w s t
  unfolding upsert_wallet
  upsert_wallet-Saved w s u t h more =
      let row = relabelled (wallet_row column w) (find_row (has_id w.id) s.wallets) in
      let written : replace_rows (has_id w.id) row s.wallets ≡ t.wallets =
        ap (λ x. elim x [ ok (_, v) ↦ v.wallets | err _ ↦ u.wallets ]) h ∙ sym more.wallets in
      let accounts : s.accounts ≡ u.accounts =
        ap (λ x. elim x [ ok (_, v) ↦ v.accounts | err _ ↦ u.accounts ]) h in
      let named : row.id ≡ w.id = relabelled-id (wallet_row column w) s.wallets in
      record {
        wallet =
            subst (λ x. find_row (has_id w.id) x ≡ some row) written
              (find_row-replace_rows (has_id w.id) row s.wallets (rw (named, ==_refl w.id) refl));
        other_wallets = λ other ne.
            subst (λ x. find_row (has_id other) x ≡ find_row (has_id other) s.wallets) written
              (upsert_wallet-lookup w other s.wallets row named ne);
        accounts = λ chain.
            subst
              (λ x.
                find_row (has_key w.id chain) t.accounts
                ≡ newest w.id chain w.accounts (find_row (has_key w.id chain) x))
              (sym accounts) (more.rows chain);
        other_accounts =
            λ other ne. more.others other ne ∙ ap (rows_where (belongs_to other)) (sym accounts);
        transactions =
            more.transactions
            ∙ sym (ap (λ x. elim x [ ok (_, v) ↦ v.transactions | err _ ↦ u.transactions ]) h);
        tx_addresses =
            more.tx_addresses
            ∙ sym (ap (λ x. elim x [ ok (_, v) ↦ v.tx_addresses | err _ ↦ u.tx_addresses ]) h);
      }

  -- Save is all or nothing, whatever becomes of its statements: either it fails and the tables are
  -- as before, or the wallet's row has the new label, with its first time of creation; each chain's
  -- account is the last one that the wallet has for it, or else the one that was saved before; and
  -- the rows of other wallets, the transactions and their addresses are as before. When Save
  -- succeeds, it is the second.
  pub save_atomic :
      (w : Wallet) (s : Db)
      → Saved column w s.tables (save column w s).1.tables
        ⊎ ((e : Error) × ((save column w s).0 ≡ err e) × ((save column w s).1.tables ≡ s.tables))
  unfolding save
  save_atomic w s =
      transaction_atomic (Saved column w s.tables)
        (wrapped "repository: save wallet %s: %w" (str w.id ∷ [])
            (statement (upsert_wallet column w))
          >> save_accounts w.id w.accounts)
        s
        (λ b t _ same ran.
          statement-bind-inv "repository: save wallet %s: %w" (str w.id ∷ [])
            (upsert_wallet column w) (λ _. save_accounts w.id w.accounts) b ran
            (λ _ u first rest_ran.
              upsert_wallet-Saved w s.tables u.tables t.tables
                (subst (λ x. upsert_wallet column w x ≡ ok (tt, u.tables)) same first)
                (save_accounts-SavedAccounts w.id w.accounts u t rest_ran)))
