-- ===== src/Repository/Contract.antt =====
-- What `port.WalletRepository` promises, kept by both implementations: memory.go and postgres.go of
-- internal/adapter/repository.
use Prim.Native.Nat.{ℕ}
use Prim.Native.String.{String}
use mathlib.Core.List.{List, [], map, ◌∷◌}
use mathlib.Core.Logic.{inl, inr, ◌≢◌, ◌⊎◌}
use mathlib.Core.Option
use mathlib.Core.Option.{Option, none, some, some-injective}
use mathlib.Core.Path.{ap, refl, subst, ◌∙◌, ◌≡◌}
use omnicatena.Base.{==_false, ==_refl, All, Any, Bool-cases, string_eq, ◌==◌}
use omnicatena.Base.Map.{insert, lookup, lookup-insert}
use omnicatena.Base.Result.{Error, Result, err, ok}
use omnicatena.Domain.{Account, ChainId, Wallet, account, find_account}
use omnicatena.Port.{WalletRepository}
use omnicatena.Repository.Memory
use omnicatena.Repository.Memory.{Wallets, get-save}
use omnicatena.Repository.Stores.{memory_wallets, postgres_wallets}
use omnicatena.Repository.Tables.{Db, Tables, serving}
use omnicatena.Repository.Wallets
use omnicatena.Repository.Wallets.{account_row, find_row, has_key, save, to_account}
use omnicatena.Repository.Wallets.Accounts.{newest}
use omnicatena.Repository.Wallets.Listing.{list-get}
use omnicatena.Repository.Wallets.Reading.{Saved-Readable}
use omnicatena.Repository.Wallets.Saving.{save_atomic}

-- No two of the accounts are on the same chain.
abbrev pub OneEach : List Account → Type 0
OneEach [] = Unit
OneEach (a ∷ rest) = All (λ (b : Account). b.chain ≢ a.chain) rest × OneEach rest

-- `calm` is the state with a store that answers every call from then on.
module _ {S : Type 0} (repo : WalletRepository S) (calm : S → S) where
  -- In `t` the wallet can be had, with its accounts, and what other ids give is as in `s`.
  pub record Holds (w : Wallet) (s t : S) : Type 0 where
    pub found :
        (got : Wallet) × ((repo.get w.id (calm t)).0 ≡ ok got)
        × (got.label ≡ w.label)
        × ((chain : ChainId) (acc : Account)
            → account w chain ≡ some acc
            → account got chain ≡ some acc)
    pub listed : (ws : List Wallet) × ((repo.list (calm t)).0 ≡ ok ws) × Any (λ u. u ≡ found.0) ws
    pub others :
        (other : String) → w.id ≢ other → (repo.get other (calm t)).0 ≡ (repo.get other (calm s)).0

  -- What a save from the state `s` came to: all or nothing; when it succeeds, it is all.
  abbrev pub AllOrNothing : Wallet → S → Result (Unit {0}) × S → Type 0
  AllOrNothing w s (r, t) =
      Holds w s t
      ⊎ ((e : Error) × (r ≡ err e)
          × ((id : String) → (repo.get id (calm t)).0 ≡ (repo.get id (calm s)).0))

  abbrev pub IsWalletRepository : Type 0
  IsWalletRepository = (w : Wallet) (s : S) → OneEach w.accounts → AllOrNothing w s (repo.save w s)

newest-other :
    (id : String) (chain : ChainId) (accounts : List Account) (old : Option _)
    → All (λ (b : Account). b.chain ≢ chain) accounts
    → newest id chain accounts old ≡ old
newest-other id chain [] old h = refl
newest-other id chain (b ∷ rest) old (ne, more) =
    rw (==_false b.chain chain ne) (newest-other id chain rest old more)

-- Where the chains are apart, the last account of a chain is the first.
newest-find_account :
    (id : String) (chain : ChainId) (accounts : List Account) (old : Option _) (acc : Account)
    → OneEach accounts
    → find_account chain accounts ≡ some acc
    → newest id chain accounts old ≡ some (account_row id acc)
unfolding find_account
newest-find_account id chain [] old acc one h = absurd (cc)
newest-find_account id chain (a ∷ rest) old acc (apart, one) h =
    elim (Bool-cases (a.chain == chain)) [
      | inl e ↦
          let same : a.chain ≡ chain = (string_eq.beq_iff a.chain chain).0 e in
          let first : a ≡ acc = some-injective a acc (rw e at h) in
          rw e (
            newest-other id chain rest (some (account_row id a))
              (subst (λ c. All (λ (b : Account). b.chain ≢ c) rest) same apart)
            ∙ ap (λ x. some (account_row id x)) first)
      | inr e ↦ rw e (newest-find_account id chain rest old acc one (rw e at h))
    ]

-- What Go promises of a range over a map: it gives every entry.
abbrev pub GivesAll : (Wallets → Wallets) → Type 0
GivesAll range =
    (m : Wallets) (id : String) (w : Wallet)
    → lookup id m ≡ some w
    → Any (λ u. u ≡ w) (map (λ (_, x). x) (range m))

pub memory_wallets-IsWalletRepository :
    (range : Wallets → Wallets)
    → GivesAll range
    → IsWalletRepository (memory_wallets range) (λ m. m)
unfolding Memory.save Memory.list
memory_wallets-IsWalletRepository range all w s one = inl (record {
  listed = (
    map (λ (_, x). x) (range (insert w.id w s)),
    refl,
    all (insert w.id w s) w.id w (lookup-insert w.id w.id w s ∙ rw (==_refl w.id) refl),
  );
  found = (w, get-save w w.id s ∙ rw (==_refl w.id) refl, refl, λ chain acc k. k);
  others = λ other ne. get-save w other s ∙ rw (==_false w.id other ne) refl;
})

postgres_wallets-IsWalletRepository :
    (column : ℕ → ℕ) (n : ℕ)
    → IsWalletRepository (postgres_wallets column) (λ db. serving db.tables n)
unfolding account
postgres_wallets-IsWalletRepository column n w s one = elim (save_atomic column w s) [
  | inl saved ↦
      let ((got, there, label, _, accounts), others) =
        Saved-Readable column w n s.tables (save column w s).1.tables saved in
      inl (record {
        listed = list-get (save column w s).1.tables n w.id got there;
        found = (
          got,
          there,
          label,
          λ chain acc k.
              accounts chain
              ∙ ap (Option.map to_account) (
                  newest-find_account w.id chain w.accounts
                    (find_row (has_key w.id chain) s.tables.accounts) acc one k),
        );
        others = others;
      })
  | inr (e, bad, same) ↦
      inr (e, bad, λ id. ap (λ (x : Tables). (Wallets.get id (serving x n)).0) same)
]

-- The wallets in memory and those in PostgreSQL keep one promise, whatever the server makes of the
-- calls of the save: after a save of a wallet that has no two accounts on one chain, either its id gives a
-- wallet with the saved label and, for each chain of the saved wallet, its account, the list has this
-- wallet, and every other id
-- gives what it gave before; or the save failed, and every id gives what it gave before. The
-- wallets are read once the server answers.
pub save-AllOrNothing :
    (column : ℕ → ℕ) (n : ℕ) (range : Wallets → Wallets) (all : GivesAll range) (w : Wallet)
    (m : Wallets) (db : Db)
    → OneEach w.accounts
    → AllOrNothing (memory_wallets range) (λ s. s) w m ((memory_wallets range).save w m)
      × AllOrNothing
          (postgres_wallets column)
          (λ s. serving s.tables n)
          w
          db
          ((postgres_wallets column).save w db)
save-AllOrNothing column n range all w m db one = (
  memory_wallets-IsWalletRepository range all w m one,
  postgres_wallets-IsWalletRepository column n w db one,
)
