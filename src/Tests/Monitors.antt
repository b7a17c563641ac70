-- ===== src/Tests/Monitors.antt =====
-- The loop that saves and publishes, the owners of the addresses, and both with the events of a block.
use Prim.Native.Nat.{ℕ, ◌+◌}
use Prim.Native.String.{String}
use mathlib.Core.Bool.{false, true}
use mathlib.Core.List.{List, [], map, ◌++◌, ◌∷◌}
use mathlib.Core.Logic.{inl, inr}
use mathlib.Core.Option.{Option, some}
use mathlib.Core.Path.{refl, ◌≡◌}
use omnicatena.App.Monitor.{MonitorService, owner_of, owners, watch_loop}
use omnicatena.App.Monitor.Laws.{watch_stops}
use omnicatena.App.Monitor.Owners.{RangesOver, SavedUnderOwner, transfers_noticed}
use omnicatena.App.Monitor.Recording.{Kept, over_postgres, watch_records}
use omnicatena.Base.{Any, if◌then◌else◌, ltb, string_eq, ◌==◌}
use omnicatena.Base.Map.{Map, keys, lookup}
use omnicatena.Base.Result.{Result, err, ok, sentinel}
use omnicatena.Chain.Evm.Match.{match_transactions, watched_of}
use omnicatena.Chain.Evm.Match.Noticed.{Notices}
use omnicatena.Chain.Registry.{Registry}
use omnicatena.Domain.{Account, Address, TxEvent, Wallet, account, inbound, outbound}
use omnicatena.Port.{ChainWatcher, Selected, TxEventPublisher, cancelled, closed, received}
use omnicatena.Repository.Tables.{Db, serving}
use omnicatena.Tests.Fixtures.{paid}
use omnicatena.Tests.Tables.{alice_tables, payment}
use omnicatena.Tests.Watchers.{block_txs, pair_view}

-- The state holds what was saved; the broker refuses bob's events.
abbrev picky : MonitorService (List (String × TxEvent))
picky = record {
  publisher = record {
    publish = λ evt s. ((if evt.address == "bob" then err (sentinel "refused") else ok tt), s);
  };
  tx_repo = record { save_event = λ id evt s. (ok tt, s ++ (id, evt) ∷ []) };
  registry = record { adapters = []; watchers = [] };
  range = λ m. m;
}

abbrev owned : Map Address String
owned = ("alice", "w1") ∷ ("bob", "w2") ∷ []

abbrev after_alice : List (String × TxEvent)
after_alice = ("w1", paid "alice") ∷ []

abbrev after_bob : List (String × TxEvent)
after_bob = ("w1", paid "alice") ∷ ("w2", paid "bob") ∷ []

watch_alice : watch_loop picky owned (map received (paid "alice" ∷ [])) [] ≡ (ok false, after_alice)
unfolding watch_loop owner_of lookup
watch_alice = refl

abbrev to_bob : List Selected
to_bob = received (paid "alice") ∷ received (paid "bob") ∷ []

watch_stops_example :
    (picky.tx_repo.save_event (owner_of owned "bob") (paid "bob") after_alice
        ≡ (err (sentinel "refused"), after_bob)
      → watch_loop picky owned to_bob [] ≡ (err (sentinel "refused"), after_bob))
    × ((s3 : List (String × TxEvent))
        → picky.tx_repo.save_event (owner_of owned "bob") (paid "bob") after_alice ≡ (ok tt, s3)
        → picky.publisher.publish (paid "bob") s3 ≡ (err (sentinel "refused"), after_bob)
        → watch_loop picky owned to_bob [] ≡ (err (sentinel "refused"), after_bob))
    × ((s3 : List (String × TxEvent))
        → picky.tx_repo.save_event (owner_of owned "bob") (paid "bob") after_alice ≡ (ok tt, s3)
        → picky.publisher.publish (paid "bob") s3 ≡ (ok tt, after_bob)
        → watch_loop picky owned to_bob [] ≡ watch_loop picky owned [] after_bob)
    × (watch_loop picky owned (received (paid "alice") ∷ closed ∷ []) [] ≡ (ok true, after_alice))
    × (watch_loop picky owned (received (paid "alice") ∷ cancelled (sentinel "refused") ∷ []) []
        ≡ (err (sentinel "refused"), after_alice))
watch_stops_example =
    watch_stops picky owned (paid "alice" ∷ []) (paid "bob") [] [] after_alice after_bob
      (sentinel "refused") watch_alice

abbrev pub alice_account : Account
alice_account = record { chain = "ethereum"; address = "alice"; path = [] }

abbrev pub alice_wallet : Wallet
alice_wallet = record { id = "w1"; label = "first"; created_at = 1; accounts = alice_account ∷ [] }

pub alice_found : account alice_wallet "ethereum" ≡ some alice_account
unfolding account
alice_found = refl

abbrev pub two_wallets : List Wallet
two_wallets = record alice_wallet { id = "w0" } ∷ alice_wallet ∷ []

pub same_order-RangesOver : RangesOver (λ m. m)
same_order-RangesOver = record { sound = λ m a h. h; complete = λ m a h. h }

-- Every entry of the map of owners is watched, and the block is that of Tests.Watchers.
abbrev alice_events : List TxEvent
alice_events =
    match_transactions pair_view "ethereum" block_txs 6 100
      (watched_of pair_view (keys (owners "ethereum" [] two_wallets)))

abbrev NoticedFrom : TxEvent → Type 0
NoticedFrom evt =
    Notices pair_view "ethereum" 6 100 outbound ("alice", "bob") "alice" evt
    × SavedUnderOwner pair_view "ethereum" 6 100 same_order-RangesOver two_wallets evt

abbrev NoticedTo : TxEvent → Type 0
NoticedTo evt =
    Notices pair_view "ethereum" 6 100 inbound ("alice", "bob") "alice" evt
    × SavedUnderOwner pair_view "ethereum" 6 100 same_order-RangesOver two_wallets evt

transfers_noticed_example :
    (◌≡◌ {A = Result String} (ok "alice") (ok "alice") → Any NoticedFrom alice_events)
    × (◌≡◌ {A = Option String} (some "bob") (some "alice") → Any NoticedTo alice_events)
transfers_noticed_example =
    transfers_noticed pair_view "ethereum" 6 100 same_order-RangesOver two_wallets alice_wallet
      alice_account ("alice", "bob") block_txs (inr (inl refl)) alice_found (inl refl)

-- The first event is saved and published; the broker takes no second one.
abbrev one_only : TxEventPublisher ℕ
one_only = record {
  publish = λ evt n. if ltb n 1 then (ok tt, n + 1) else (err (sentinel "refused"), n);
}

abbrev nothing_wired : Registry (Db × ℕ) (ChainWatcher (Db × ℕ))
nothing_wired = record { adapters = []; watchers = [] }

watch_records_example :
    Kept nothing_wired
      (λ db. 700)
      one_only
      (λ m. m)
      owned
      (payment ∷ payment ∷ [])
      (serving alice_tables 1, 0)
      (watch_loop
        (over_postgres nothing_wired (λ db. 700) one_only (λ m. m))
        owned
        (received payment ∷ received payment ∷ closed ∷ [])
        (serving alice_tables 1, 0))
watch_records_example =
    watch_records nothing_wired (λ db. 700) one_only (λ m. m) owned
      (received payment ∷ received payment ∷ closed ∷ []) (serving alice_tables 1, 0)
