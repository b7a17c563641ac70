-- ===== src/App/Monitor.antt =====
-- internal/app/monitor_service.go and `startMonitoring` of cmd/api/monitoring.go.
pub mod Delivered
pub mod Laws
pub mod Owners
pub mod Recording
use Prim.Native.String.{String}
use mathlib.Core.Bool.{Bool, false, true}
use mathlib.Core.List.{List, [], ◌∷◌}
use mathlib.Core.Option.{Option, none, some}
use omnicatena.Base.{string_eq}
use omnicatena.Base.Exec.{Exec, attempt, fail, lift, pure, ◌>>=◌, ◌>>◌}
use omnicatena.Base.Map.{Map, insert, keys, lookup}
use omnicatena.Base.Result.{Result, err, ok}
use omnicatena.Chain.Registry
use omnicatena.Chain.Registry.{Registry}
use omnicatena.Domain.{Address, ChainId, TxEvent, Wallet, account, chain_base, chain_ethereum}
use omnicatena.Port.{
  ChainWatcher, Selected, TransactionRepository, TxEventPublisher, WalletRepository, cancelled,
  closed, received,
}

-- `range` is the order in which Go ranges over a map.
pub record MonitorService (S : Type 0) : Type 0 where
  pub registry : Registry S (ChainWatcher S)
  pub publisher : TxEventPublisher S
  pub tx_repo : TransactionRepository S
  pub range : Map Address String → Map Address String

-- addrs[evt.Address]: the empty text for an address that the map lacks
unfoldable pub owner_of : Map Address String → Address → String
owner_of addrs addr = elim (lookup addr addrs) [ none ↦ "" | some id ↦ id ]

module _ {S : Type 0} (service : MonitorService S) where
  module _ (addrs : Map Address String) where
    pub handle : TxEvent → Exec S (Unit {0})
    handle evt =
        service.tx_repo.save_event (owner_of addrs evt.address) evt >> service.publisher.publish evt

    -- The loop over what the selects give. It answers true where it returned since the channel was
    -- closed, and false where it is in its next select.
    unfoldable pub watch_loop : List Selected → Exec S Bool
    unfolding handle
    watch_loop [] = pure false
    watch_loop (received evt ∷ rest) = handle evt >> watch_loop rest
    watch_loop (closed ∷ rest) = pure true
    watch_loop (cancelled e ∷ rest) = fail e

  unfoldable pub watch : ChainId → Map Address String → Exec S Bool
  watch chain addrs = do
    watcher ← lift (Registry.watcher service.registry chain)
    events ← watcher.watch (keys (service.range addrs))
    watch_loop addrs events

-- The addresses of the wallets on a chain, with the wallet that owns each.
add_owner : ChainId → Map Address String → Wallet → Map Address String
add_owner chain addrs w = elim (account w chain) [
  | none ↦ addrs
  | some acc ↦ insert acc.address w.id addrs
]

unfoldable pub owners : ChainId → Map Address String → List Wallet → Map Address String
unfolding add_owner
owners chain addrs [] = addrs
owners chain addrs (w ∷ rest) = owners chain (add_owner chain addrs w) rest

-- `go` starts a goroutine, which logs the error that the watch returns.
module _ {S : Type 0} (go : Exec S Bool → Exec S (Unit {0})) (service : MonitorService S) where
  start_watches : List Wallet → List ChainId → Exec S (Unit {0})
  start_watches wallets [] = pure tt
  start_watches wallets (chain ∷ rest) =
      go (watch service chain (owners chain [] wallets)) >> start_watches wallets rest

  unfoldable pub start_monitoring : WalletRepository S → Exec S (Unit {0})
  unfolding start_watches
  start_monitoring repo = attempt repo.list >>= λ r. elim r [
    | err e ↦ pure tt
    | ok wallets ↦ start_watches wallets (chain_ethereum ∷ chain_base ∷ [])
  ]
