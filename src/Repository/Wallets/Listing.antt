-- ===== src/Repository/Wallets/Listing.antt =====
-- List of internal/adapter/repository/postgres.go, next to Get.
use Prim.Native.Nat.{ℕ}
use Prim.Native.String.{String}
use mathlib.Core.List.{List, [], map, ◌∷◌}
use mathlib.Core.Logic.{inl, inr}
use mathlib.Core.Option.{Option, none, some, some-injective}
use mathlib.Core.Path.{ap, refl, subst, sym, ◌∙◌, ◌≡◌}
use omnicatena.Base.{Any, Bool-cases, string_eq}
use omnicatena.Base.Result.{err, ok}
use omnicatena.Domain.{Wallet}
use omnicatena.Repository.Tables.{Tables, WalletRow, serving}
use omnicatena.Repository.Wallets.{
  accounts_for, belongs_to, fill_accounts, find_row, get, has_id, list, rows_where, to_account,
  to_wallet,
}
use omnicatena.Repository.Wallets.Reading.{get-eq, wallet_read}

module _ (t : Tables) (n : ℕ) where
  -- A row with the accounts of the wallet `id`.
  abbrev with_accounts : String → WalletRow → Wallet
  with_accounts id r = to_wallet r (map to_account (rows_where (belongs_to id) t.accounts))

  fill_accounts-eq :
      (rows : List WalletRow)
      → fill_accounts rows (serving t n) ≡ (ok (map (λ r. with_accounts r.id r) rows), serving t n)
  unfolding fill_accounts accounts_for
  fill_accounts-eq [] = refl
  fill_accounts-eq (r ∷ rest) = rw (fill_accounts-eq rest) refl

  list-eq :
      list (serving t n)
      ≡ (ok (map (λ (r : WalletRow). with_accounts r.id r) t.wallets), serving t n)
  unfolding list
  list-eq = fill_accounts-eq t.wallets

  find_row-Any :
      (id : String) (r : WalletRow) (rows : List WalletRow)
      → find_row (has_id id) rows ≡ some r
      → Any (λ w. w ≡ with_accounts id r) (map (λ (x : WalletRow). with_accounts x.id x) rows)
  unfolding find_row
  find_row-Any id r [] h = absurd (cc)
  find_row-Any id r (x ∷ rest) h = elim (Bool-cases (has_id id x)) [
    | inl e ↦
        let same : x ≡ r = some-injective x r (rw e at h) in
        let named : x.id ≡ id = (string_eq.beq_iff x.id id).0 e in
        inl (λ i. with_accounts (named i) (same i))
    | inr e ↦ inr (find_row-Any id r rest (rw e at h))
  ]

  -- What Get gives is in the list.
  pub list-get :
      (id : String) (w : Wallet)
      → (get id (serving t n)).0 ≡ ok w
      → (ws : List Wallet) × ((list (serving t n)).0 ≡ ok ws) × Any (λ u. u ≡ w) ws
  list-get id w h = (
    map (λ (x : WalletRow). with_accounts x.id x) t.wallets,
    ap (λ x. x.0) list-eq,
    go (find_row (has_id id) t.wallets) refl (sym (get-eq id t n) ∙ h),
  )
    where
      go :
          (o : Option WalletRow)
          → find_row (has_id id) t.wallets ≡ o
          → wallet_read id (rows_where (belongs_to id) t.accounts) o ≡ ok w
          → Any (λ u. u ≡ w) (map (λ (x : WalletRow). with_accounts x.id x) t.wallets)
      go none e k = absurd (cc)
      go (some r) e k =
          let same : with_accounts id r ≡ w = ap (λ x. elim x [ ok y ↦ y | err _ ↦ w ]) k in
          subst (λ y. Any (λ u. u ≡ y) (map (λ (x : WalletRow). with_accounts x.id x) t.wallets))
            same (find_row-Any id r t.wallets e)
