-- ===== src/Tests/Start.antt =====
-- What the programs create, start and keep, with nodes that do not answer.
use mathlib.Core.List.{List, Memᴰ, [], ◌∷◌}
use mathlib.Core.Option.{none, some}
use mathlib.Core.Path.{refl, ◌≡◌}
use omnicatena.App.Wallets.{WalletService, create}
use omnicatena.App.Wallets.Laws.{DerivedOn}
use omnicatena.Base.{All, Any, string_eq}
use omnicatena.Base.Bytes.{Bytes}
use omnicatena.Base.Exec.{◌>>◌}
use omnicatena.Base.Map.{Map}
use omnicatena.Base.Result.{Error, err, ok}
use omnicatena.Chain.Evm.Watching.{set_cursor_store}
use omnicatena.Chain.Registry
use omnicatena.Chain.Registry.{Registry}
use omnicatena.Config.{load}
use omnicatena.Domain.{Account, ChainId, Wallet, account}
use omnicatena.HdWallet.Path.{bip44_path}
use omnicatena.Port.{ChainWatcher}
use omnicatena.Repository.Contract.{memory_wallets-IsWalletRepository}
use omnicatena.Repository.Memory.{Wallets}
use omnicatena.Start.{api_main, api_registry, handler}
use omnicatena.Start.Created.{created_is_kept}
use omnicatena.Start.Laws.{never_on_solana}
use omnicatena.Start.Monitored.{api_monitors, watch_by}
use omnicatena.Tests.Fixtures.{same_order-GivesAll}
use omnicatena.Tests.Programs.{
  api_service, api_service-IsWired, base_made, base_watcher, config, connected, eth_made,
  eth_watcher, list, outside,
}
use omnicatena.Tests.Wallets.{in_memory, open_keys}
use omnicatena.Transport.Routes.{router}

abbrev four_accounts : Wallet
four_accounts = record {
  id = "w7";
  label = "all";
  created_at = 7;
  accounts =
      record { chain = "ethereum"; address = "0xaa"; path = bip44_path "ethereum" }
      ∷ record { chain = "base"; address = "0xaa"; path = bip44_path "base" }
      ∷ record { chain = "bitcoin"; address = "address"; path = bip44_path "bitcoin" }
      ∷ record { chain = "tron"; address = "T1"; path = bip44_path "tron" }
      ∷ [];
}

create_by_api : create api_service "all" [] [] ≡ (ok four_accounts, ("w7", four_accounts) ∷ [])
unfolding create api_registry load omnicatena.Repository.Memory.save
    omnicatena.App.Wallets.derive_accounts omnicatena.Base.Map.insert
    omnicatena.Chain.Registry.supported omnicatena.Chain.Registry.register_watcher
    omnicatena.Chain.Registry.new_registry omnicatena.Chain.Registry.adapter
    omnicatena.Base.Map.lookup omnicatena.Chain.Evm.Signing.derive_account
    omnicatena.HdWallet.Derive.derive_key omnicatena.HdWallet.Path.parse_path
    omnicatena.HdWallet.Path.bip44_path omnicatena.Base.Bytes.split
    omnicatena.Base.Decimal.parse_uint omnicatena.Base.Decimal.decimal
    omnicatena.HdWallet.Path.coin_type omnicatena.Chain.Bitcoin.Signing.derive_account
    omnicatena.Chain.Solana.derive_account omnicatena.Chain.Tron.Signing.derive_account
    omnicatena.HdWallet.Derive.derive_key_ed25519
create_by_api = refl

never_on_solana_example : account four_accounts "solana" ≡ none
never_on_solana_example =
    never_on_solana outside config api_service list [] [] (connected []) api_service-IsWired "all"
      [] four_accounts [] (("w7", four_accounts) ∷ []) create_by_api

created_is_kept_example :
    (seed : Bytes) × ((u : Wallets) × (v : Wallets) × (open_keys.create "w7" [] u ≡ (ok seed, v)))
    × (got : Wallet) × ((in_memory.get "w7" (("w7", four_accounts) ∷ [])).0 ≡ ok got)
    × (got.label ≡ "all")
    × ((chain : ChainId) (acc : Account)
        → Memᴰ chain (Registry.supported (λ m. m) api_service.registry)
        → DerivedOn api_service seed acc chain
        → account got chain ≡ some acc)
    × (ws : List Wallet) × ((in_memory.list (("w7", four_accounts) ∷ [])).0 ≡ ok ws)
    × Any (λ u. u ≡ got) ws
created_is_kept_example =
    created_is_kept outside config api_service list [] [] (connected []) api_service-IsWired
      (λ m. m) (memory_wallets-IsWalletRepository (λ m. m) same_order-GivesAll) (λ m once. once)
      "all" [] four_accounts [] (("w7", four_accounts) ∷ []) create_by_api

abbrev started : Registry Wallets (ChainWatcher Wallets)
started =
    api_registry outside list (set_cursor_store outside.cursors eth_watcher)
      (set_cursor_store outside.cursors base_watcher)

abbrev owned_before : Wallets
owned_before = ("w7", four_accounts) ∷ []

api_monitors_example :
    ((ws : List Wallet)
      → outside.wallets.list owned_before ≡ (ok ws, owned_before)
      → api_main outside config owned_before
        ≡ (outside.go
                (watch_by outside config list eth_watcher base_watcher eth_watcher "ethereum" ws)
              >> (outside.go
                    (watch_by outside config list eth_watcher base_watcher base_watcher "base" ws)
                  >> outside.serve (router (handler outside started))))
            owned_before)
    × ((e : Error)
        → outside.wallets.list owned_before ≡ (err e, owned_before)
        → api_main outside config owned_before
          ≡ outside.serve (router (handler outside started)) owned_before)
api_monitors_example =
    api_monitors outside config list eth_watcher base_watcher owned_before owned_before owned_before
      (connected owned_before) eth_made base_made
