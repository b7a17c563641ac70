-- ===== src/Start/Created.antt =====
-- The wallets that the programs of cmd/api/main.go and cmd/cli/main.go create, and the repository that
-- they are in.
use Prim.Native.String.{String}
use mathlib.Core.List.{List, Memᴰ, [], ◌∷◌}
use mathlib.Core.Logic.{inl, inr, ◌≢◌}
use mathlib.Core.Option.{some}
use mathlib.Core.Path.{subst, sym, ◌≡◌}
use native.Mathlib.Omega.{arith}
use omnicatena.App.Wallets.{WalletService, create}
use omnicatena.App.Wallets.Finding.{Apart, created_found}
use omnicatena.App.Wallets.Laws.{DerivedOn}
use omnicatena.Base.{All, Any, Bool-cases, string_eq, ◌==◌}
use omnicatena.Base.Bytes.{Bytes}
use omnicatena.Base.Map.{Map, insert, keys}
use omnicatena.Base.Result.{ok}
use omnicatena.Chain.Registry
use omnicatena.Chain.Registry.{Registry, add_adapters, new_registry, register_watcher}
use omnicatena.Config.{Config}
use omnicatena.Domain.{Account, ChainId, Wallet, account}
use omnicatena.Port.{ChainAdapter, ChainWatcher}
use omnicatena.Repository.Contract.{IsWalletRepository}
use omnicatena.Start.{Outside, api_registry, connect}
use omnicatena.Start.Laws.{IsWired, derived_on_chain}

module _ {V : Type 0} (k : ChainId) (v : V) where
  insert-All :
      (c : ChainId) (m : Map ChainId V)
      → All (λ d. d ≢ c) (keys m)
      → k ≢ c
      → All (λ d. d ≢ c) (keys (insert k v m))
  unfolding insert
  insert-All c [] h ne = (ne, tt)
  insert-All c ((d, x) ∷ rest) (h, more) ne = elim (Bool-cases (d == k)) [
    | inl e ↦ rw e (ne, more)
    | inr e ↦ rw e (h, insert-All c rest more ne)
  ]

  insert-Apart : (m : Map ChainId V) → Apart (keys m) → Apart (keys (insert k v m))
  unfolding insert
  insert-Apart [] h = (tt, tt)
  insert-Apart ((d, x) ∷ rest) (h, more) = elim (Bool-cases (d == k)) [
    | inl e ↦ rw e (subst (λ c. All (λ b. b ≢ c) (keys rest)) ((string_eq.beq_iff d k).0 e) h, more)
    | inr e ↦ rw e (
      insert-All d rest h (λ same. absurd (ground (arith, string_eq.beq_iff d k))),
      insert-Apart rest more,
    )
  ]

module _ {S : Type 0} where
  add_adapters-Apart :
      (m : Map ChainId (ChainAdapter S)) (list : List (ChainAdapter S))
      → Apart (keys m)
      → Apart (keys (add_adapters m list))
  unfolding add_adapters
  add_adapters-Apart m [] h = h
  add_adapters-Apart m (a ∷ rest) h =
      add_adapters-Apart (insert a.chain a m) rest (insert-Apart a.chain a m h)

  IsWired-Apart :
      (o : Outside S) (list : List (ChainAdapter S)) (r : Registry S (ChainWatcher S))
      → IsWired o list r
      → Apart (keys r.adapters)
  unfolding api_registry new_registry register_watcher
  IsWired-Apart o list r (inl e) =
      subst (λ x. Apart (keys x.adapters)) (sym e) (add_adapters-Apart [] list tt)
  IsWired-Apart o list r (inr (eth, base, e)) =
      subst (λ x. Apart (keys x.adapters)) (sym e) (add_adapters-Apart [] list tt)

module _ {S : Type 0} (o : Outside S) (cfg : Config) where
  -- Over any repository that keeps its contract, and with a range over a map that gives no key twice:
  -- a wallet that a program creates can be had from the repository. Its id gives a wallet with its
  -- label and, for each chain of the program's registry, the account that the chain's adapter derives
  -- at the chain's standard path from the seed that the key store made for the wallet's id and passphrase;
  -- and the list of the wallets has this wallet.
  pub created_is_kept :
      (service : WalletService S (ChainWatcher S)) (list : List (ChainAdapter S)) (s0 s1 : S)
      → connect o cfg s0 ≡ (ok list, s1)
      → IsWired o list service.registry
      → (calm : S → S) → IsWalletRepository service.repo calm
      → ((m : Map ChainId (ChainAdapter S)) → Apart (keys m) → Apart (keys (service.range m)))
      → (label : String) (passphrase : Bytes) (w : Wallet) (s t : S)
      → create service label passphrase s ≡ (ok w, t)
      → (seed : Bytes) × ((u : S) × (v : S) × (service.keys.create w.id passphrase u
            ≡ (ok seed, v)))
        × (got : Wallet) × ((service.repo.get w.id (calm t)).0 ≡ ok got)
        × (got.label ≡ label)
        × ((chain : ChainId) (acc : Account)
            → Memᴰ chain (Registry.supported service.range service.registry)
            → DerivedOn service seed acc chain
            → account got chain ≡ some acc)
        × (ws : List Wallet) × ((service.repo.list (calm t)).0 ≡ ok ws)
        × Any (λ u. u ≡ got) ws
  unfolding Registry.supported
  created_is_kept service list s0 s1 connected wired calm stores once label passphrase w s t h =
      created_found service
        (λ seed acc chain (a, found, derived).
          derived_on_chain o cfg list service.registry s0 s1 connected wired chain a seed _ acc
            found derived)
        stores (once service.registry.adapters (IsWired-Apart o list service.registry wired)) label
        passphrase w s t h
