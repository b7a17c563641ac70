-- ===== src/Start/Monitored.antt =====
-- What cmd/api/main.go has running when it serves: its adapters, and the watches of
-- cmd/api/monitoring.go.
use mathlib.Core.Bool.{Bool}
use mathlib.Core.List.{List, [], ◌∷◌}
use mathlib.Core.Logic.{inl, ◌≢◌}
use mathlib.Core.Option.{none}
use mathlib.Core.Path.{ap, refl, sym, ◌∙◌, ◌≡◌}
use omnicatena.App.Monitor.{owners, start_monitoring, watch, watch_loop}
use omnicatena.App.Monitor.Laws.{start_monitoring-eq, watch-eq}
use omnicatena.Base.{All, Any, string_eq}
use omnicatena.Base.Exec.{>>-assoc, Exec, continue, pure, ◌>>=◌, ◌>>◌}
use omnicatena.Base.Map.{keys}
use omnicatena.Base.Result.{Error, bytes, err, errorf, ok, str, wrap, |>-inv}
use omnicatena.Chain.Evm.Watching.{Watcher, new_watcher, set_cursor_store}
use omnicatena.Chain.Registry
use omnicatena.Chain.Registry.{
  Registry, adapter-new_registry, last_for-none, last_for-some, new_registry, register_watcher,
  watcher-register_watcher,
}
use omnicatena.Config.{Config, Evm}
use omnicatena.Domain.{
  ChainId, Wallet, chain_base, chain_bitcoin, chain_ethereum, chain_solana, chain_tron,
}
use omnicatena.Port.{ChainAdapter, ChainWatcher}
use omnicatena.Start.{
  Outside, adapters, api_main, api_registry, connect, handler, monitor_service, watcher_for,
  watcher_port,
}
use omnicatena.Start.Laws.{IsWired, IsWired-adapter, connect-adapters}
use omnicatena.Transport.Routes.{router}

abbrev pub five_chains : List ChainId
five_chains = chain_ethereum ∷ chain_base ∷ chain_bitcoin ∷ chain_solana ∷ chain_tron ∷ []

module _ {S : Type 0} (o : Outside S) (cfg : Config) where
  -- Both programs, once they are connected, have an adapter for each of the five chains, which serves this
  -- chain and no other, and answer for every other chain with the error that there is none.
  serves_five_chains :
      (made : List (ChainAdapter S)) (registry : Registry S (ChainWatcher S)) (s t : S)
      → connect o cfg s ≡ (ok made, t)
      → IsWired o made registry
      → (chain : ChainId)
      → (Any (λ c. c ≡ chain) five_chains
          → (a : ChainAdapter S) × (Registry.adapter registry chain ≡ ok a) × (a.chain ≡ chain))
        × (All (λ c. c ≢ chain) five_chains
            → Registry.adapter registry chain
              ≡ err (errorf "chain: no adapter for %s" (str chain ∷ [])))
  serves_five_chains made registry s t connected wired chain =
      let (n, same) = connect-adapters o cfg s t connected in
      let W = ChainWatcher S in
      let from_new : Registry.adapter registry chain
          ≡ Registry.adapter (new_registry {W = W} (adapters o cfg n)) chain =
        IsWired-adapter o made registry chain wired
        ∙ ap (λ l. Registry.adapter (new_registry {W = W} l) chain) (sym same) in
      let (answer, own) = adapter-new_registry W (adapters o cfg n) chain in
      (
        λ h.
            let (a, found) = last_for-some chain (adapters o cfg n) none (inl h) in
            let e : Registry.adapter (new_registry {W = W} (adapters o cfg n)) chain ≡ ok a =
              answer ∙ rw found refl in
            (a, from_new ∙ e, own a e),
        λ h. from_new ∙ answer ∙ rw (last_for-none chain (adapters o cfg n) none h) refl,
      )

new_watcher-inv :
    {S : Type 0} (o : Outside S) (node : Evm) (chain : ChainId) {w : Watcher S o.libs.EthTx}
    → watcher_for o node chain ≡ ok w
    → w.cfg.chain ≡ chain
unfolding new_watcher
new_watcher-inv o node chain {w} h =
    let (client, e) =
      |>-inv
        (wrap "evm: watcher dial %s: %w" (bytes node.rpc_url ∷ []) (o.dial_blocks node.rpc_url)) _
        h in
    ap (λ x. x.cfg.chain) (sym e)

module _ {S : Type 0} (o : Outside S) (cfg : Config) (made : List (ChainAdapter S))
    (eth base : Watcher S o.libs.EthTx) where
  -- The watchers, with the store of the cursors.
  abbrev with_cursors : Watcher S o.libs.EthTx → Watcher S o.libs.EthTx
  with_cursors = set_cursor_store o.cursors

  abbrev registry : Registry S (ChainWatcher S)
  registry = api_registry o made (with_cursors eth) (with_cursors base)

  -- A watch by a watcher, of the addresses that the wallets have on its chain.
  abbrev pub watch_by : Watcher S o.libs.EthTx → ChainId → List Wallet → Exec S Bool
  watch_by w chain ws =
      let addrs = owners chain [] ws in
      (watcher_port o (with_cursors w)).watch (keys (o.range_owners addrs))
      >>= watch_loop (monitor_service o cfg registry) addrs

  registry-watcher :
      eth.cfg.chain ≡ chain_ethereum
      → base.cfg.chain ≡ chain_base
      → (Registry.watcher registry chain_ethereum ≡ ok (watcher_port o (with_cursors eth)))
        × (Registry.watcher registry chain_base ≡ ok (watcher_port o (with_cursors base)))
  unfolding api_registry set_cursor_store
  registry-watcher e b =
      let inner : Registry S (ChainWatcher S) =
        register_watcher eth.cfg.chain (watcher_port o (with_cursors eth)) (new_registry made) in
      let at_base = λ (c : ChainId).
        watcher-register_watcher base.cfg.chain c (watcher_port o (with_cursors base)) inner in
      let at_eth = λ (c : ChainId).
        watcher-register_watcher eth.cfg.chain c (watcher_port o (with_cursors eth))
          (new_registry made) in
      (
        at_base chain_ethereum ∙ rw b (at_eth chain_ethereum ∙ rw e refl),
        at_base chain_base ∙ rw b refl,
      )

  -- The API, once it is connected to the nodes, starts a watch of Ethereum by its watcher and one of Base
  -- by the other, both with the store of the cursors, of the addresses that the listed wallets have on
  -- the chain; then it serves its routes, with one registry for all its services. Where the wallets cannot be listed
  -- it serves all the same, and starts no watch.
  pub api_monitors :
      (s t u : S)
      → connect o cfg s ≡ (ok made, t)
      → watcher_for o cfg.ethereum chain_ethereum ≡ ok eth
      → watcher_for o cfg.base chain_base ≡ ok base
      → ((ws : List Wallet)
          → o.wallets.list t ≡ (ok ws, u)
          → api_main o cfg s
            ≡ (o.go (watch_by eth chain_ethereum ws)
                  >> (o.go (watch_by base chain_base ws) >> o.serve (router (handler o registry))))
                u)
        × ((e : Error)
            → o.wallets.list t ≡ (err e, u)
            → api_main o cfg s ≡ o.serve (router (handler o registry)) u)
  unfolding api_main
  api_monitors s t u connected made_eth made_base =
      let monitor = monitor_service o cfg registry in
      let serve = o.serve (router (handler o registry)) in
      let (on_eth, on_base) =
        registry-watcher (new_watcher-inv o cfg.ethereum chain_ethereum made_eth)
          (new_watcher-inv o cfg.base chain_base made_base) in
      let (listed, failed) = start_monitoring-eq o.go monitor o.wallets t u in
      let begun : api_main o cfg s ≡ (start_monitoring o.go monitor o.wallets >> serve) t =
        rw (connected, made_eth, made_base) refl in
      (
        λ ws h.
            let a = watch monitor chain_ethereum (owners chain_ethereum [] ws) in
            let b = watch monitor chain_base (owners chain_base [] ws) in
            let ea = watch-eq monitor chain_ethereum (owners chain_ethereum [] ws) _ on_eth in
            let eb = watch-eq monitor chain_base (owners chain_base [] ws) _ on_base in
            begun
            ∙ ap (λ r. continue r (λ _. serve)) (listed ws h)
            ∙ ap (λ m. m u) (>>-assoc (o.go a) (o.go b >> pure tt) serve)
            ∙ ap (λ m. (o.go a >> m) u) (>>-assoc (o.go b) (pure tt) serve)
            ∙ ap (λ m. (o.go m >> (o.go b >> serve)) u) ea
            ∙ ap (λ m. (o.go (watch_by eth chain_ethereum ws) >> (o.go m >> serve)) u) eb,
        λ e h. begun ∙ ap (λ r. continue r (λ _. serve)) (failed e h),
      )
