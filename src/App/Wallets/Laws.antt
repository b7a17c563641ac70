-- ===== src/App/Wallets/Laws.antt =====
-- What the creation of a wallet leaves behind: `Create` of internal/app/wallet_service.go.
use Prim.Native.Nat.{ℕ}
use Prim.Native.String.{String}
use mathlib.Core.List.{List, Memᴰ, [], ◌∷◌}
use mathlib.Core.List.Memᴰ
use mathlib.Core.Logic.{inl, inr}
use mathlib.Core.Path.{refl, subst, sym, ◌≡◌}
use omnicatena.App.Wallets.{WalletService, account_on, create, derive_accounts}
use omnicatena.Base.Bytes.{Bytes}
use omnicatena.Base.Exec.{bind-inv, wrapped, wrapped-inv}
use omnicatena.Base.Result.{Result, err, ok}
use omnicatena.Chain.Registry
use omnicatena.Chain.Registry.{Registry, adapter}
use omnicatena.Domain.{Account, ChainId, Wallet}
use omnicatena.HdWallet.Path.{bip44_path}
use omnicatena.Port.{ChainAdapter}

module _ {S W : Type 0} (service : WalletService S W) where
  -- The chain's adapter derives the account from the seed at the chain's standard path.
  abbrev pub DerivedOn : Bytes → Account → ChainId → Type 0
  DerivedOn seed acc chain =
      (a : ChainAdapter S) × (Registry.adapter service.registry chain ≡ ok a)
      × (a.derive_account seed (bip44_path chain) ≡ ok acc)

  account_on_sound :
      (seed : Bytes) (chain : ChainId) {acc : Account}
      → Memᴰ acc (account_on service seed chain)
      → DerivedOn seed acc chain
  unfolding account_on
  account_on_sound seed chain {acc} m = go (Registry.adapter service.registry chain) refl m
    where
      derived :
          (a : ChainAdapter S) (r : Result Account)
          → a.derive_account seed (bip44_path chain) ≡ r
          → Memᴰ acc (elim r [ err e ↦ [] | ok acc' ↦ acc' ∷ [] ])
          → a.derive_account seed (bip44_path chain) ≡ ok acc
      derived a (err e) _ n = absurd (Memᴰ.not-nil n)
      derived a (ok acc') e (Memᴰ.head same) = rw same e
      derived a (ok acc') e (Memᴰ.tail n) = absurd (Memᴰ.not-nil n)

      go :
          (r : Result (ChainAdapter S))
          → Registry.adapter service.registry chain ≡ r
          → Memᴰ acc (elim r [
            | err e ↦ []
            | ok adapter ↦ elim (adapter.derive_account seed (bip44_path chain)) [
              | err e ↦ []
              | ok acc' ↦ acc' ∷ []
            ]
          ])
          → DerivedOn seed acc chain
      go (err e) _ n = absurd (Memᴰ.not-nil n)
      go (ok a) e n = (a, e, derived a (a.derive_account seed (bip44_path chain)) refl n)

  account_on_complete :
      (seed : Bytes) (chain : ChainId) (acc : Account)
      → DerivedOn seed acc chain
      → Memᴰ acc (account_on service seed chain)
  unfolding account_on
  account_on_complete seed chain acc (a, e, d) =
      subst
        (λ r. Memᴰ acc (elim r [
          | err e ↦ []
          | ok b ↦ elim (b.derive_account seed (bip44_path chain)) [
            | err e ↦ []
            | ok acc' ↦ acc' ∷ []
          ]
        ]))
        (sym e) (rw d (Memᴰ.head refl))

  pub derive_accounts_sound :
      (seed : Bytes) (chains : List ChainId) {acc : Account}
      → Memᴰ acc (derive_accounts service seed chains)
      → (chain : ChainId) × Memᴰ chain chains × DerivedOn seed acc chain
  unfolding derive_accounts
  derive_accounts_sound seed [] m = absurd (Memᴰ.not-nil m)
  derive_accounts_sound seed (c ∷ rest) m = elim (Memᴰ.append_cases (account_on service seed c) m) [
    | inl n ↦ (c, Memᴰ.head refl, account_on_sound seed c n)
    | inr n ↦ let (chain, k, d) = derive_accounts_sound seed rest n in (chain, Memᴰ.tail k, d)
  ]

  derive_accounts_complete :
      (seed : Bytes) (chains : List ChainId) (acc : Account) (chain : ChainId)
      → Memᴰ chain chains
      → DerivedOn seed acc chain
      → Memᴰ acc (derive_accounts service seed chains)
  unfolding derive_accounts
  derive_accounts_complete seed [] acc chain m d = absurd (Memᴰ.not-nil m)
  derive_accounts_complete seed (c ∷ rest) acc chain (Memᴰ.head e) d =
      Memᴰ.append_left (derive_accounts service seed rest)
        (account_on_complete seed c acc (subst (DerivedOn seed acc) e d))
  derive_accounts_complete seed (c ∷ rest) acc chain (Memᴰ.tail m) d =
      Memᴰ.append_right (account_on service seed c)
        (derive_accounts_complete seed rest acc chain m d)

  -- A wallet that `create` returns, from the state `s` to the state `t`.
  pub record IsCreated (label : String) (passphrase : Bytes) (w : Wallet) (s t : S) : Type 0 where
    pub seed : Bytes
    pub stamp : ℕ
    pub after_stamp : S
    pub after_clock : S
    pub after_row : S
    pub after_keys : S
    pub stamped : service.now s ≡ (ok stamp, after_stamp)
    pub named : w.id ≡ service.format_id stamp
    pub labelled : w.label ≡ label
    pub clock : service.now after_stamp ≡ (ok w.created_at, after_clock)
    pub row : service.repo.save (record w { accounts = [] }) after_clock ≡ (ok tt, after_row)
    pub keyed : service.keys.create w.id passphrase after_row ≡ (ok seed, after_keys)
    pub stored : service.repo.save w after_keys ≡ (ok tt, t)
    pub derived :
        w.accounts
        ≡ derive_accounts service seed (Registry.supported service.range service.registry)
    pub sound :
        (acc : Account)
        → Memᴰ acc w.accounts
        → (chain : ChainId) × Memᴰ chain (Registry.supported service.range service.registry)
          × DerivedOn seed acc chain
    pub complete :
        (acc : Account) (chain : ChainId)
        → Memᴰ chain (Registry.supported service.range service.registry)
        → DerivedOn seed acc chain
        → Memᴰ acc w.accounts

  -- A wallet that is created was stored without accounts before its keys were made, and with its
  -- accounts after: the row that the keystore's foreign key needs is there when the keys are
  -- written. Its accounts are exactly those that the adapter of a supported chain derives from the
  -- seed at the chain's standard path.
  pub create-eq_ok :
      (label : String) (passphrase : Bytes) (w : Wallet) (s t : S)
      → create service label passphrase s ≡ (ok w, t)
      → IsCreated label passphrase w s t
  unfolding create
  create-eq_ok label passphrase w s t h = bind-inv service.now _ h λ stamp s1 e1 h1.
      bind-inv service.now _ h1 λ created s2 e2 h2.
        bind-inv (wrapped "wallet: save: %w" [] (service.repo.save (skeleton stamp created))) _ h2
          λ u s3 e3 h3.
            bind-inv
              (wrapped "wallet: create keys: %w" []
                (service.keys.create (service.format_id stamp) passphrase))
              _ h3
              λ seed s4 e4 h4.
                bind-inv
                  (wrapped "wallet: save accounts: %w" []
                    (service.repo.save (full stamp created seed)))
                  _ h4
                  λ v s5 e5 h5.
                    let e : full stamp created seed ≡ w = cc in
                    let e' : s5 ≡ t = cc in
                    subst (λ x. IsCreated label passphrase x s t) e
                      (record {
                        seed = seed;
                        stamp = stamp;
                        after_stamp = s1;
                        after_clock = s2;
                        after_row = s3;
                        after_keys = s4;
                        stamped = e1;
                        named = refl;
                        labelled = refl;
                        clock = e2;
                        row =
                            wrapped-inv "wallet: save: %w" []
                              (service.repo.save (skeleton stamp created)) e3;
                        keyed =
                            wrapped-inv "wallet: create keys: %w" []
                              (service.keys.create (service.format_id stamp) passphrase) e4;
                        stored = rw (sym e') (
                            wrapped-inv "wallet: save accounts: %w" []
                              (service.repo.save (full stamp created seed)) e5);
                        derived = refl;
                        sound = λ acc.
                            derive_accounts_sound seed
                              (Registry.supported service.range service.registry);
                        complete =
                            derive_accounts_complete seed
                              (Registry.supported service.range service.registry);
                      })
    where
      skeleton : ℕ → ℕ → Wallet
      skeleton stamp created = record {
        id = service.format_id stamp;
        label = label;
        created_at = created;
        accounts = [];
      }

      full : ℕ → ℕ → Bytes → Wallet
      full stamp created seed = record (skeleton stamp created) {
        accounts = derive_accounts service seed (Registry.supported service.range service.registry);
      }
