-- ===== src/App/Monitor/Delivered.antt =====
-- From a block to the tables: a tick of `poll` in internal/adapter/chain/evm/watcher.go, and `Watch` of
-- internal/app/monitor_service.go over PostgreSQL on the events that the tick sent.
use Prim.Native.Nat.{ℕ, ◌+◌, ◌-◌, ◌<◌, ◌≤◌}
use Prim.Native.String.{String}
use mathlib.Core.Bool.{Bool, false}
use mathlib.Core.List.{List, [], append-nil, map, ◌∷◌}
use mathlib.Core.Option.{Option, some}
use mathlib.Core.Path.{ap, refl, subst, sym, ◌∙◌, ◌≡◌}
use native.Mathlib.Omega.{arith}
use omnicatena.App.Monitor.{owners, watch_loop}
use omnicatena.App.Monitor.Owners.{RangesOver, SavedUnderOwner, transfers_noticed}
use omnicatena.App.Monitor.Recording.{IsListed, Kept, arrived, over_postgres, watch_records}
use omnicatena.Base.{All, Any, Any-All, Any-mono, Eq}
use omnicatena.Base.Map.{Map, keys}
use omnicatena.Base.Result.{Result, ok}
use omnicatena.Chain.Evm.Client.{Block, TxView}
use omnicatena.Chain.Evm.Match.{match_transactions, watched_of}
use omnicatena.Chain.Evm.Match.Noticed.{Notices}
use omnicatena.Chain.Evm.Watcher.{poll_tick}
use omnicatena.Chain.Evm.Watcher.Scan.{cursors, node, poll_tick-eq, served, served-Any, take_event}
use omnicatena.Chain.Registry.{Registry}
use omnicatena.Domain.{
  Account, Address, ChainId, TxEvent, TxEventType, Wallet, account, inbound, outbound,
}
use omnicatena.Port.{ChainWatcher, TxEventPublisher, received}
use omnicatena.Repository.Tables.{Db}

arrived-map : (events : List TxEvent) → arrived (map received events) ≡ events
arrived-map [] = refl
arrived-map (evt ∷ rest) = ap (◌∷◌ evt) (arrived-map rest)

-- A loop that returned no error recorded all that arrived.
module _ {B : Type 0} (registry : Registry (Db × B) (ChainWatcher (Db × B))) (clock : Db → ℕ)
    (publisher : TxEventPublisher B) (range : Map Address String → Map Address String)
    (addrs : Map Address String) where
  Kept-All :
      (events : List TxEvent) (w t : Db × B) (r : Result Bool) {b : Bool}
      → Kept registry clock publisher range addrs events w (r, t)
      → r ≡ ok b
      → All (IsListed t.0.tables) events
  Kept-All events w t r (_, before, [], same, listed, u, ran, ended) h =
      subst (All (IsListed t.0.tables)) (sym (same ∙ append-nil before)) listed
  Kept-All events w t r (_, before, evt ∷ after, same, listed, u, ran, (er, failed, e)) h =
      absurd (cc)

module _ {EthAddress Tx : Type 0} ⦃eq : Eq EthAddress⦄ (v : TxView EthAddress Tx) (chain : ChainId)
    {range : Map Address String → Map Address String} (over : RangesOver range) (ws : List Wallet)
    (tip : ℕ) (blocks : ℕ → Result (Block Tx)) (stored : ℕ → Result (Unit {0})) where
  abbrev owned : Map Address String
  owned = owners chain [] ws

  abbrev block_events : Block Tx → ℕ → List TxEvent
  block_events b n =
      match_transactions v chain b.transactions n b.time (watched_of v (keys (range owned)))

  -- What a tick sends that begins at `next`, with the cursor `c`.
  abbrev pub sent_by : ℕ → Option ℕ → List TxEvent
  sent_by next c =
      (poll_tick (node block_events (ok tip) blocks stored)
        (some (cursors block_events (ok tip) blocks stored)) chain block_events
        (take_event block_events (ok tip) blocks stored) next
        (record { sent = []; cursor = c })).1.sent

  sent_by-eq :
      (next : ℕ) (c : Option ℕ)
      → sent_by next c ≡ (served block_events (ok tip) blocks stored (tip + 1 - next) next).0
  sent_by-eq next c =
      ap (λ x. x.1.sent)
        (poll_tick-eq block_events (ok tip) blocks stored chain next
          (record { sent = []; cursor = c }))

  module _ {B : Type 0} (registry : Registry (Db × B) (ChainWatcher (Db × B))) (clock : Db → ℕ)
      (publisher : TxEventPublisher B) where
    abbrev pub run : ℕ → Option ℕ → Db × B → Result Bool × (Db × B)
    run next c w =
        watch_loop (over_postgres registry clock publisher range) owned
          (map received (sent_by next c)) w

    -- One of these events tells of the transaction and is in the tables.
    abbrev pub IsRecorded : TxEventType → ℕ → ℕ → Tx → Account → Db × B → List TxEvent → Type 0
    IsRecorded kind n time tx acc t events =
        Any (λ evt. Notices v chain n time kind tx acc.address evt × IsListed t.0.tables evt) events

    -- Where the channel takes every event, the node serves the blocks from the start of a tick up to this one, which is not above the
    -- tip, and `Watch` handles what the tick sent without an error, with PostgreSQL for the
    -- transactions and any publisher, and whichever cursors the store refuses: of a wallet of the list with an account on the chain, each
    -- transfer of this block is in the tables. One that its account sends has an outbound event, and
    -- one that it receives an inbound event, with the transaction's hash and value and an address that
    -- denotes the account; the tick sent it, and the tables have its transaction and the link from this
    -- to the event's address.
    pub no_transfer_lost :
        (next n : ℕ) (c : Option ℕ) (block : Block Tx) (u : Wallet) (acc : Account) (tx : Tx)
        (w t : Db × B)
        → next ≤ n
        → n ≤ tip
        → ((k : ℕ) → next ≤ k → k < n → (b : Block Tx) × (blocks k ≡ ok b))
        → blocks n ≡ ok block
        → Any (λ x. x ≡ u) ws
        → account u chain ≡ some acc
        → Any (λ x. x ≡ tx) block.transactions
        → run next c w ≡ (ok false, t)
        → (v.sender tx ≡ ok (v.hex_to_address acc.address)
            → IsRecorded outbound n block.time tx acc t (sent_by next c))
          × (v.recipient tx ≡ some (v.hex_to_address acc.address)
              → IsRecorded inbound n block.time tx acc t (sent_by next c))
    no_transfer_lost next n c block u acc tx w t low high earlier here listed has there ran =
        let (out, inb) =
          transfers_noticed v chain n block.time over ws u acc tx block.transactions listed has
            there in
        (λ h. found outbound (out h), λ h. found inbound (inb h))
      where
        recorded : All (IsListed t.0.tables) (sent_by next c)
        recorded =
            Kept-All registry clock publisher range owned (sent_by next c) w t (ok false)
              (subst (λ l. Kept registry clock publisher range owned l w (ok false, t))
                (arrived-map (sent_by next c))
                (subst
                  (Kept registry clock publisher range owned
                    (arrived (map received (sent_by next c))) w)
                  ran
                  (watch_records registry clock publisher range owned
                    (map received (sent_by next c)) w)))
              refl

        found :
            (kind : TxEventType)
            → Any
                (λ evt.
                  Notices v chain n block.time kind tx acc.address evt
                  × SavedUnderOwner v chain n block.time over ws evt)
                (block_events block n)
            → IsRecorded kind n block.time tx acc t (sent_by next c)
        found kind h =
            Any-All (IsListed t.0.tables) (Notices v chain n block.time kind tx acc.address)
              (sent_by next c) recorded
              (subst (Any (Notices v chain n block.time kind tx acc.address))
                (sym (sent_by-eq next c))
                (served-Any block_events (ok tip) blocks stored
                  (Notices v chain n block.time kind tx acc.address) n block here
                  (Any-mono (block_events block n) (λ evt both. both.0) h) (tip + 1 - next) next low
                  (omega arith) earlier))
