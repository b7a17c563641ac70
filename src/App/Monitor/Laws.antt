-- ===== src/App/Monitor/Laws.antt =====
-- The order of the effects of the loop of `Watch` of internal/app/monitor_service.go, and the owners that
-- `startMonitoring` of cmd/api/monitoring.go gives it.
use Prim.Native.String.{String}
use mathlib.Core.Bool.{Bool, false, true}
use mathlib.Core.List.{List, [], map, ◌++◌, ◌∷◌}
use mathlib.Core.Logic.{◌≢◌}
use mathlib.Core.Option.{Option, none, some}
use mathlib.Core.Path.{ap, refl, ◌∙◌, ◌≡◌}
use omnicatena.App.Monitor.{
  MonitorService, add_owner, handle, owner_of, owners, start_monitoring, watch, watch_loop,
}
use omnicatena.Base.{==_false, All, string_eq}
use omnicatena.Base.Exec.{Exec, continue, lift, pure, ◌>>=◌, ◌>>◌}
use omnicatena.Base.Map.{Map, insert, keys, lookup, lookup-insert}
use omnicatena.Base.Result.{Error, Result, err, ok}
use omnicatena.Chain.Registry
use omnicatena.Domain.{
  Account, Address, ChainId, TxEvent, Wallet, account, chain_base, chain_ethereum,
}
use omnicatena.Port.{ChainWatcher, Selected, WalletRepository, cancelled, closed, received}

module _ {S : Type 0} (service : MonitorService S) (addrs : Map Address String) where
  pub watch_loop-append :
      (xs : List TxEvent) (ys : List Selected) (s : S)
      → watch_loop service addrs (map received xs ++ ys) s
        ≡ (watch_loop service addrs (map received xs) >>= λ b. watch_loop service addrs ys) s
  unfolding watch_loop
  watch_loop-append [] ys s = refl
  watch_loop-append (x ∷ xs) ys s = go (handle service addrs x s) (watch_loop-append xs ys)
    where
      go :
          (r : Result (Unit {0}) × S)
          → ((s' : S)
              → watch_loop service addrs (map received xs ++ ys) s'
                ≡ (watch_loop service addrs (map received xs) >>= λ b. watch_loop service addrs ys)
                    s')
          → continue r (λ _. watch_loop service addrs (map received xs ++ ys))
            ≡ continue
                (continue r (λ _. watch_loop service addrs (map received xs)))
                (λ b. watch_loop service addrs ys)
      go (ok u, s') ih = ih s'
      go (err e, s') ih = refl

  pub watch_loop_after :
      (before : List TxEvent) (ys : List Selected) (s s1 : S)
      → watch_loop service addrs (map received before) s ≡ (ok false, s1)
      → watch_loop service addrs (map received before ++ ys) s ≡ watch_loop service addrs ys s1
  watch_loop_after before ys s s1 h =
      watch_loop-append before ys s ∙ ap (λ r. continue r (λ b. watch_loop service addrs ys)) h

  -- Events are handled in their order, each saved under the wallet that owns its address before it
  -- is published. Where saving an event fails it is not published, and where saving or publishing
  -- one fails, no later event is handled: the error and the state at that point are what the loop
  -- returns. When the channel is closed it returns without an error, and when the context is cancelled
  -- with the context's, and leaves the state as it was.
  pub watch_stops :
      (before : List TxEvent) (evt : TxEvent) (rest : List Selected) (s s1 s2 : S) (e : Error)
      → watch_loop service addrs (map received before) s ≡ (ok false, s1)
      → (service.tx_repo.save_event (owner_of addrs evt.address) evt s1 ≡ (err e, s2)
          → watch_loop service addrs (map received before ++ (received evt ∷ rest)) s ≡ (err e, s2))
        × ((s3 : S)
            → service.tx_repo.save_event (owner_of addrs evt.address) evt s1 ≡ (ok tt, s3)
            → service.publisher.publish evt s3 ≡ (err e, s2)
            → watch_loop service addrs (map received before ++ (received evt ∷ rest)) s
              ≡ (err e, s2))
        × ((s3 : S)
            → service.tx_repo.save_event (owner_of addrs evt.address) evt s1 ≡ (ok tt, s3)
            → service.publisher.publish evt s3 ≡ (ok tt, s2)
            → watch_loop service addrs (map received before ++ (received evt ∷ rest)) s
              ≡ watch_loop service addrs rest s2)
        × (watch_loop service addrs (map received before ++ (closed ∷ rest)) s ≡ (ok true, s1))
        × (watch_loop service addrs (map received before ++ (cancelled e ∷ rest)) s ≡ (err e, s1))
  unfolding watch_loop handle
  watch_stops before evt rest s s1 s2 e h =
      let h' = watch_loop_after before (received evt ∷ rest) s s1 h in
      (
        λ p. h' ∙ rw p refl,
        λ s3 p q. h' ∙ rw (p, q) refl,
        λ s3 p q. h' ∙ rw (p, q) refl,
        watch_loop_after before (closed ∷ rest) s s1 h,
        watch_loop_after before (cancelled e ∷ rest) s s1 h,
      )

-- A watch of a chain that has a watcher.
pub watch-eq :
    {S : Type 0} (service : MonitorService S) (chain : ChainId) (addrs : Map Address String)
    (w : ChainWatcher S)
    → Registry.watcher service.registry chain ≡ ok w
    → watch service chain addrs
      ≡ (w.watch (keys (service.range addrs)) >>= watch_loop service addrs)
unfolding watch
watch-eq service chain addrs w e =
    ap
      (λ r. lift r >>= λ watcher.
        watcher.watch (keys (service.range addrs)) >>= λ events. watch_loop service addrs events)
      e

-- What is started for the wallets of the repository, and where it does not list them.
pub start_monitoring-eq :
    {S : Type 0} (go : Exec S Bool → Exec S (Unit {0})) (service : MonitorService S)
    (repo : WalletRepository S) (s t : S)
    → ((ws : List Wallet)
        → repo.list s ≡ (ok ws, t)
        → start_monitoring go service repo s
          ≡ (go (watch service chain_ethereum (owners chain_ethereum [] ws))
                >> (go (watch service chain_base (owners chain_base [] ws)) >> pure tt))
              t)
      × ((e : Error) → repo.list s ≡ (err e, t) → start_monitoring go service repo s ≡ (ok tt, t))
unfolding start_monitoring
start_monitoring-eq go service repo s t = (λ ws h. rw h refl, λ e h. rw h refl)

-- No wallet of the list has the address as its account on the chain.
abbrev pub LacksAddress : ChainId → Address → Wallet → Type 0
LacksAddress chain addr w = (acc : Account) → account w chain ≡ some acc → acc.address ≢ addr

lookup-add_owner :
    (chain : ChainId) (addr : Address) (addrs : Map Address String) (w : Wallet)
    → LacksAddress chain addr w
    → lookup addr (add_owner chain addrs w) ≡ lookup addr addrs
unfolding add_owner
lookup-add_owner chain addr addrs w lacks = go (account w chain) refl
  where
    go :
        (r : Option Account)
        → account w chain ≡ r
        → lookup addr (elim r [ none ↦ addrs | some acc ↦ insert acc.address w.id addrs ])
          ≡ lookup addr addrs
    go none e = refl
    go (some acc) e =
        lookup-insert acc.address addr w.id addrs
        ∙ rw (==_false acc.address addr (lacks acc e)) refl

lookup-owners :
    (chain : ChainId) (addr : Address) (addrs : Map Address String) (ws : List Wallet)
    → All (LacksAddress chain addr) ws
    → lookup addr (owners chain addrs ws) ≡ lookup addr addrs
unfolding owners
lookup-owners chain addr addrs [] a = refl
lookup-owners chain addr addrs (w ∷ rest) (lacks, a) =
    lookup-owners chain addr (add_owner chain addrs w) rest a
    ∙ lookup-add_owner chain addr addrs w lacks

owners-append :
    (chain : ChainId) (addrs : Map Address String) (xs ys : List Wallet)
    → owners chain addrs (xs ++ ys) ≡ owners chain (owners chain addrs xs) ys
unfolding owners
owners-append chain addrs [] ys = refl
owners-append chain addrs (x ∷ xs) ys = owners-append chain (add_owner chain addrs x) xs ys

-- An event is saved under the last wallet of the list that has its address on the chain.
pub owner_of-owners :
    (chain : ChainId) (before : List Wallet) (w : Wallet) (after : List Wallet) (acc : Account)
    → account w chain ≡ some acc
    → All (LacksAddress chain acc.address) after
    → owner_of (owners chain [] (before ++ (w ∷ after))) acc.address ≡ w.id
unfolding owner_of owners add_owner
owner_of-owners chain before w after acc h lacks =
    let m = owners chain [] before in
    let added : lookup acc.address (add_owner chain m w) ≡ some w.id =
      rw (add_owner, h)
        (lookup-insert acc.address acc.address w.id m
          ∙ rw ((string_eq.beq_iff acc.address acc.address).1 refl) refl) in
    let found : lookup acc.address (owners chain [] (before ++ (w ∷ after))) ≡ some w.id =
      ap (lookup acc.address) (owners-append chain [] before (w ∷ after))
      ∙ lookup-owners chain acc.address (add_owner chain m w) after lacks
      ∙ added in
    rw (owner_of, found) refl
