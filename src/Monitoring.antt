-- ===== src/Monitoring.antt =====
-- A watcher's goroutine (`poll` of internal/adapter/chain/evm/watcher.go) and the MonitorService that
-- reads its channel (internal/app/monitor_service.go), as one system whose steps interleave.
--
-- The channel is unbuffered: an event passes when the watcher sends and the service receives. The
-- node, the database and the broker decide which of the possible steps is taken. `B` is a block, and
-- `events` is MatchTransactions on it. `blocks`, `received` and `published` are kept for the statements:
-- the blocks whose loop has ended, and the events that the service received and published.
pub mod Order
pub mod Restart
pub mod Progress
use Prim.Native.Nat.{ℕ, ◌+◌, ◌<◌, ◌≤◌}
use mathlib.Core.Bool.{Bool}
use mathlib.Core.List.{List, [], ◌++◌, ◌∷◌}
use mathlib.Core.Option.{Option, some}
use mathlib.Core.Path.{◌≡◌}
use omnicatena.Base.{if◌then◌else◌}
use omnicatena.Domain.{TxEvent}

module _ (B : Type 0) where
  -- Where `poll` stands: waiting for the ticker, at the head of the loop up to `tip`, or in the loop over
  -- a block's events with those that are left. It returns only when its context is cancelled, and
  -- startMonitoring of cmd/api/monitoring.go gives it context.Background().
  pub data Phase : Type 0 where
    idle : Phase
    scanning : ℕ → Phase
    sending : ℕ → B → List TxEvent → Phase

-- Where `Watch` stands: in the select, in SaveEvent, in Publish, or returned. An event at which it
-- returned was not saved (`ended_saving`) or not published (`ended_publishing`).
pub data Service : Type 0 where
  ready : Service
  saving publishing ended_saving ended_publishing : TxEvent → Service

pub record System (B : Type 0) : Type 0 where
  pub next : ℕ
  pub phase : Phase B
  pub service : Service
  pub cursor : Option ℕ
  pub blocks : List B
  pub received : List TxEvent
  pub saved : List TxEvent
  pub published : List TxEvent

module _ {B : Type 0} (events : B → ℕ → List TxEvent) where
  pub data Step (s : System B) : System B → Type 0 where
    tick : (tip : ℕ) → s.phase ≡ idle → Step s (record s { phase = scanning tip })
    loop_ends :
        (tip : ℕ) → s.phase ≡ scanning tip → tip < s.next → Step s (record s { phase = idle })
    fetch_fails :
        (tip : ℕ) → s.phase ≡ scanning tip → s.next ≤ tip → Step s (record s { phase = idle })
    fetch :
        (tip : ℕ) (b : B)
        → s.phase ≡ scanning tip
        → s.next ≤ tip
        → Step s (record s { phase = sending tip b (events b s.next) })
    deliver :
        (tip : ℕ) (b : B) (evt : TxEvent) (rest : List TxEvent)
        → s.phase ≡ sending tip b (evt ∷ rest)
        → s.service ≡ ready
        → Step s (record s {
          phase = sending tip b rest;
          service = saving evt;
          received = s.received ++ evt ∷ [];
        })
    -- `stored` tells whether the cursor could be stored
    advance :
        (tip : ℕ) (b : B) (stored : Bool)
        → s.phase ≡ sending tip b []
        → Step s (record s {
          next = s.next + 1;
          phase = scanning tip;
          cursor = if stored then some s.next else s.cursor;
          blocks = s.blocks ++ b ∷ [];
        })
    save :
        (evt : TxEvent)
        → s.service ≡ saving evt
        → Step s (record s { service = publishing evt; saved = s.saved ++ evt ∷ [] })
    save_fails :
        (evt : TxEvent) → s.service ≡ saving evt → Step s (record s { service = ended_saving evt })
    publish :
        (evt : TxEvent)
        → s.service ≡ publishing evt
        → Step s (record s { service = ready; published = s.published ++ evt ∷ [] })
    publish_fails :
        (evt : TxEvent)
        → s.service ≡ publishing evt
        → Step s (record s { service = ended_publishing evt })

  pub data Reach (s : System B) : System B → Type 0 where
    here : Reach s s
    then_step : {t u : System B} → Reach s t → Step t u → Reach s u

-- A start of the process, when `Watch` took `last` for the last block scanned. The logs are those
-- of this run.
abbrev pub boot : {B : Type 0} → ℕ → Option ℕ → System B
boot last cursor = record {
  next = last + 1;
  phase = idle;
  service = ready;
  cursor = cursor;
  blocks = [];
  received = [];
  saved = [];
  published = [];
}
