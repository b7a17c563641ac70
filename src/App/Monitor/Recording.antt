-- ===== src/App/Monitor/Recording.antt =====
-- `Watch` of internal/app/monitor_service.go over the transactions of PostgreSQL
-- (internal/adapter/repository/transaction_postgres.go).
use Prim.Native.Nat.{ℕ}
use Prim.Native.String.{String}
use mathlib.Core.Bool.{Bool, false}
use mathlib.Core.List.{List, [], map, ◌++◌, ◌∷◌}
use mathlib.Core.Logic.{inl, inr, ◌⊎◌}
use mathlib.Core.Option.{some}
use mathlib.Core.Path.{ap, refl, subst, sym, ◌∙◌, ◌≡◌}
use omnicatena.App.Monitor.{MonitorService, handle, owner_of, watch_loop}
use omnicatena.Base.{All}
use omnicatena.Base.Exec.{continue, on_left, on_right}
use omnicatena.Base.Map.{Map}
use omnicatena.Base.Result.{Error, Result, err, ok}
use omnicatena.Chain.Registry.{Registry}
use omnicatena.Domain.{Address, TxEvent}
use omnicatena.Port.{ChainWatcher, Selected, TxEventPublisher, cancelled, closed, received}
use omnicatena.Repository.Events.{has_hash, has_link, role_for, save_event}
use omnicatena.Repository.Events.Growth.{Extends, Extends-refl, Extends-trans}
use omnicatena.Repository.Events.Growth.Saving.{save_event-Extends}
use omnicatena.Repository.Events.Saving.{Recorded, save_event_atomic}
use omnicatena.Repository.Stores.{postgres_transactions}
use omnicatena.Repository.Tables.{Db, LinkRow, Tables, TransactionRow}
use omnicatena.Repository.Wallets.{find_row}

-- The events that come before the channel is closed or the context cancelled.
abbrev pub arrived : List Selected → List TxEvent
arrived [] = []
arrived (received evt ∷ rest) = evt ∷ arrived rest
arrived (closed ∷ rest) = []
arrived (cancelled e ∷ rest) = []

-- The tables have the event's transaction and, for a side of a transfer, the link to its address.
abbrev pub IsListed : Tables → TxEvent → Type 0
IsListed t evt =
    (row : TransactionRow) × (find_row (has_hash evt.chain evt.hash) t.transactions ≡ some row)
    × ((role : String)
        → role_for evt.kind ≡ some role
        → (l : LinkRow) × (find_row (has_link row.id evt.address role) t.tx_addresses ≡ some l))

Recorded-IsListed : (evt : TxEvent) (s t : Tables) → Recorded evt s → Extends s t → IsListed t evt
Recorded-IsListed evt s t (row, found, _, _, links) e =
    let (later, there, same) = e.transactions evt.chain evt.hash row found in
    (
      later,
      there,
      λ role h.
          let (l, linked) = links role h in
          (
            l,
            subst (λ i. find_row (has_link i evt.address role) t.tx_addresses ≡ some l) (sym same)
                (e.links row.id evt.address role l linked),
          ),
    )

-- The service over PostgreSQL and a publisher with a state of its own.
abbrev pub over_postgres :
    {B : Type 0}
    → Registry (Db × B) (ChainWatcher (Db × B))
    → (Db → ℕ)
    → TxEventPublisher B
    → (Map Address String → Map Address String)
    → MonitorService (Db × B)
over_postgres registry clock publisher range = record {
  registry = registry;
  publisher = record { publish = λ evt. on_right (publisher.publish evt) };
  tx_repo = record {
    save_event = λ id evt. on_left ((postgres_transactions clock).save_event id evt);
  };
  range = range;
}

module _ {B : Type 0} (registry : Registry (Db × B) (ChainWatcher (Db × B))) (clock : Db → ℕ)
    (publisher : TxEventPublisher B) (range : Map Address String → Map Address String)
    (addrs : Map Address String) where
  abbrev service : MonitorService (Db × B)
  service = over_postgres registry clock publisher range

  -- How the loop ended that had handled all events but these, in the state `u`: it changed nothing more,
  -- or handling the first of them gave the error that the loop returned.
  abbrev pub Ended : List TxEvent → Db × B → Result Bool × (Db × B) → Type 0
  Ended [] u (r, t) = t ≡ u
  Ended (evt ∷ rest) u (r, t) =
      (e : Error) × (handle service addrs evt u ≡ (err e, t)) × (r ≡ err e)

  -- What a run of the loop over `events` from the state `w` came to.
  abbrev pub Kept : List TxEvent → Db × B → Result Bool × (Db × B) → Type 0
  Kept events w out =
      Extends w.0.tables out.1.0.tables
      × (before : List TxEvent) × (after : List TxEvent) × (events ≡ before ++ after)
      × All (IsListed out.1.0.tables) before
      × (u : Db × B) × (watch_loop service addrs (map received before) w ≡ (ok false, u))
      × Ended after u out

  -- What one event makes of the tables `s`.
  abbrev Made : TxEvent → Tables → Result (Unit {0}) × (Db × B) → Type 0
  Made evt s (r, (u, b)) = Extends s u.tables × (r ≡ ok tt → Recorded evt u.tables)

  handle-Made : (evt : TxEvent) (w : Db × B) → Made evt w.0.tables (handle service addrs evt w)
  unfolding handle
  handle-Made evt (db, b) =
      let id = owner_of addrs evt.address in
      go (save_event (clock db) id evt db) (save_event-Extends (clock db) id evt db)
        (save_event_atomic id evt (clock db) db)
    where
      go :
          (r : Result (Unit {0}) × Db)
          → Extends db.tables r.1.tables
          → Recorded evt r.1.tables ⊎ ((e : Error) × (r.0 ≡ err e) × (r.1.tables ≡ db.tables))
          → Made evt db.tables (continue (r.0, (r.1, b)) (λ _. on_right (publisher.publish evt)))
      go (err er, u) e _ = (e, λ h. absurd (cc))
      go (ok _, u) e (inl recorded) = (e, λ h. recorded)
      go (ok _, u) e (inr (er, h, _)) = absurd (cc)

  one_event :
      (evt : TxEvent) (rest : List Selected)
      → ((w : Db × B) → Kept (arrived rest) w (watch_loop service addrs rest w))
      → (w : Db × B)
      → Kept (evt ∷ arrived rest) w (watch_loop service addrs (received evt ∷ rest) w)
  unfolding watch_loop
  one_event evt rest ih w = go (handle service addrs evt w) refl (handle-Made evt w)
    where
      go :
          (r : Result (Unit {0}) × (Db × B))
          → handle service addrs evt w ≡ r
          → Made evt w.0.tables r
          → Kept (evt ∷ arrived rest) w (continue r (λ _. watch_loop service addrs rest))
      go (err er, v) e (kept, _) = (kept, [], evt ∷ arrived rest, refl, tt, w, refl, (er, e, refl))
      go (ok _, v) e (kept, recorded) =
          let (later, before, after, same, listed, u, ran, ended) = ih v in
          (
            Extends-trans w.0.tables v.0.tables (watch_loop service addrs rest v).1.0.tables kept
                later,
            evt ∷ before,
            after,
            ap (◌∷◌ evt) same,
            (
              Recorded-IsListed evt v.0.tables (watch_loop service addrs rest v).1.0.tables
                  (recorded refl) later,
              listed,
            ),
            u,
            ap (λ x. continue x (λ _. watch_loop service addrs (map received before))) e ∙ ran,
            ended,
          )

  -- Whatever the server makes of its calls, and whatever the publisher answers: the loop removes no
  -- transaction and no link that the tables had, and gives no transaction another id. The events that
  -- arrived fall into those that were handled without an error, in their order, and the others. In the
  -- tables there is of each of the first, at the end, its transaction and, for a side of a transfer, the
  -- link from it to the event's address. The others are none, or handling the first of them gave
  -- the error with which the loop returned, and the state at the end is the one that this left.
  pub watch_records :
      (selects : List Selected) (w : Db × B)
      → Kept (arrived selects) w (watch_loop service addrs selects w)
  unfolding watch_loop
  watch_records [] w = (Extends-refl w.0.tables, [], [], refl, tt, w, refl, refl)
  watch_records (received evt ∷ rest) w = one_event evt rest (watch_records rest) w
  watch_records (closed ∷ rest) w = (Extends-refl w.0.tables, [], [], refl, tt, w, refl, refl)
  watch_records (cancelled e ∷ rest) w = (Extends-refl w.0.tables, [], [], refl, tt, w, refl, refl)
