-- ===== src/App/Wallets/Finding.antt =====
-- The wallets of internal/app/wallet_service.go and the repository behind them.
use Prim.Native.String.{String}
use mathlib.Core.List.{List, Memᴰ, [], ◌++◌, ◌∷◌}
use mathlib.Core.List.Memᴰ
use mathlib.Core.Logic.{inl, inr, ◌≢◌}
use mathlib.Core.Option.{some}
use mathlib.Core.Path.{ap, refl, subst, sym, ◌∙◌, ◌≡◌}
use omnicatena.App.Wallets.{WalletService, account_on, create, derive_accounts}
use omnicatena.App.Wallets.Laws.{DerivedOn, create-eq_ok, derive_accounts_sound}
use omnicatena.Base.{==_false, ==_refl, All, Any, string_eq}
use omnicatena.Base.Bytes.{Bytes}
use omnicatena.Base.Result.{Result, err, ok}
use omnicatena.Chain.Registry
use omnicatena.Chain.Registry.{Registry}
use omnicatena.Domain.{Account, ChainId, Wallet, account, find_account}
use omnicatena.HdWallet.Path.{bip44_path}
use omnicatena.Port.{ChainAdapter}
use omnicatena.Repository.Contract.{IsWalletRepository, OneEach}

abbrev pub Apart : List ChainId → Type 0
Apart [] = Unit
Apart (c ∷ rest) = All (λ d. d ≢ c) rest × Apart rest

Mem-All : {A : Type 0} (P : A → Type 0) (xs : List A) → ((x : A) → Memᴰ x xs → P x) → All P xs
Mem-All P [] h = tt
Mem-All P (x ∷ rest) h = (h x (Memᴰ.head refl), Mem-All P rest (λ y m. h y (Memᴰ.tail m)))

All-Mem : {A : Type 0} (P : A → Type 0) (xs : List A) {x : A} → All P xs → Memᴰ x xs → P x
All-Mem P [] h m = absurd (Memᴰ.not-nil m)
All-Mem P (y ∷ rest) (p, ps) (Memᴰ.head e) = subst P (sym e) p
All-Mem P (y ∷ rest) (p, ps) (Memᴰ.tail m) = All-Mem P rest ps m

-- Each account is the one that is found for its chain.
find_account-own :
    (accounts : List Account) (acc : Account)
    → OneEach accounts
    → Memᴰ acc accounts
    → find_account acc.chain accounts ≡ some acc
unfolding find_account
find_account-own [] acc one m = absurd (Memᴰ.not-nil m)
find_account-own (a ∷ rest) acc (apart, one) (Memᴰ.head e) = rw e (rw (==_refl a.chain) refl)
find_account-own (a ∷ rest) acc (apart, one) (Memᴰ.tail m) =
    let ne = All-Mem (λ (b : Account). b.chain ≢ a.chain) rest apart m in
    rw (==_false a.chain acc.chain (λ e. ne (sym e))) (find_account-own rest acc one m)

module _ {S W : Type 0} (service : WalletService S W)
    (names : (seed : Bytes) (acc : Account) (chain : ChainId)
      → DerivedOn service seed acc chain
      → acc.chain ≡ chain) where
  account_on-OneEach :
      (seed : Bytes) (chain : ChainId) (rest : List Account)
      → All (λ (b : Account). b.chain ≢ chain) rest
      → OneEach rest
      → OneEach (account_on service seed chain ++ rest)
  unfolding account_on
  account_on-OneEach seed chain rest apart one = go (Registry.adapter service.registry chain) refl
    where
      -- At most one account comes first, and it is on the chain.
      derived :
          (r : Result Account)
          → ((acc : Account) → r ≡ ok acc → acc.chain ≡ chain)
          → OneEach (elim r [ err e ↦ [] | ok acc ↦ acc ∷ [] ] ++ rest)
      derived (err e) own = one
      derived (ok acc) own =
          (subst (λ c. All (λ (b : Account). b.chain ≢ c) rest) (sym (own acc refl)) apart, one)

      go :
          (r : Result (ChainAdapter S))
          → Registry.adapter service.registry chain ≡ r
          → OneEach (
              elim r [
                | err e ↦ []
                | ok adapter ↦ elim (adapter.derive_account seed (bip44_path chain)) [
                  | err e ↦ []
                  | ok acc ↦ acc ∷ []
                ]
              ]
              ++ rest)
      go (err e) _ = one
      go (ok a) e =
          derived (a.derive_account seed (bip44_path chain))
            (λ acc d. names seed acc chain (a, e, d))

  derive_accounts-OneEach :
      (seed : Bytes) (chains : List ChainId)
      → Apart chains
      → OneEach (derive_accounts service seed chains)
  unfolding derive_accounts
  derive_accounts-OneEach seed [] apart = tt
  derive_accounts-OneEach seed (c ∷ rest) (apart, more) =
      account_on-OneEach seed c (derive_accounts service seed rest)
        (Mem-All (λ (b : Account). b.chain ≢ c) (derive_accounts service seed rest)
          (λ b m e.
            let (chain, there, by) = derive_accounts_sound service seed rest m in
            All-Mem (λ d. d ≢ c) rest apart there (sym (names seed b chain by) ∙ e)))
        (derive_accounts-OneEach seed rest more)

  module _ {calm : S → S} (stores : IsWalletRepository service.repo calm)
      (apart : Apart (Registry.supported service.range service.registry)) where
    -- Where an account that a chain's adapter derives names this chain, and the registry gives each
    -- supported chain once: a wallet that was created can be had from the repository. Its id gives a wallet
    -- with its label and, for each supported chain, the account that the chain's adapter derives at the
    -- chain's standard path from the seed that the key store made for the wallet's id and passphrase; and
    -- the list of the wallets has this wallet.
    pub created_found :
        (label : String) (passphrase : Bytes) (w : Wallet) (s t : S)
        → create service label passphrase s ≡ (ok w, t)
        → (seed : Bytes) × ((u : S) × (v : S) × (service.keys.create w.id passphrase u
              ≡ (ok seed, v)))
          × (got : Wallet) × ((service.repo.get w.id (calm t)).0 ≡ ok got)
          × (got.label ≡ label)
          × ((chain : ChainId) (acc : Account)
              → Memᴰ chain (Registry.supported service.range service.registry)
              → DerivedOn service seed acc chain
              → account got chain ≡ some acc)
          × (ws : List Wallet) × ((service.repo.list (calm t)).0 ≡ ok ws)
          × Any (λ u. u ≡ got) ws
    unfolding account
    created_found label passphrase w s t h =
        let made = create-eq_ok service label passphrase w s t h in
        let one : OneEach w.accounts = subst OneEach (sym made.derived) (
          derive_accounts-OneEach made.seed (Registry.supported service.range service.registry)
            apart) in
        elim (stores w made.after_keys one) [
          | inr (e, bad, _) ↦ absurd (let stored = made.stored in cc)
          | inl holds ↦
              let (got, there, label_kept, accounts) = holds.found in
              let (ws, list_ran, member) = holds.listed in
              (
                made.seed,
                (made.after_row, made.after_keys, made.keyed),
                got,
                ap (λ x. (service.repo.get w.id (calm x.1)).0) (sym made.stored) ∙ there,
                label_kept ∙ made.labelled,
                λ chain acc m by.
                    let own = find_account-own w.accounts acc one (made.complete acc chain m by) in
                    accounts chain acc (
                      subst (λ c. find_account c w.accounts ≡ some acc)
                        (names made.seed acc chain by) own),
                ws,
                ap (λ x. (service.repo.list (calm x.1)).0) (sym made.stored) ∙ list_ran,
                member,
              )
        ]
