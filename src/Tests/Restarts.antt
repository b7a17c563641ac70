-- ===== src/Tests/Restarts.antt =====
-- Runs of the watcher and its service over one block with one event.
use Prim.Native.Nat.{ℕ, ◌<◌, ◌≤◌}
use mathlib.Core.List.{List, [], ◌∷◌}
use mathlib.Core.Option.{some}
use mathlib.Core.Path.{refl, ◌≡◌}
use native.Mathlib.Omega.{arith}
use omnicatena.Base.Result.{ok}
use omnicatena.Chain.Evm.Watcher.{resume_at}
use omnicatena.Domain.{TxEvent}
use omnicatena.Monitoring.{
  Reach, System, boot, ended_saving, fetch, here, idle, ready, scanning, sending, then_step, tick,
}
use omnicatena.Monitoring.Order.{IsOrdered, Reach-IsOrdered, events_from}
use omnicatena.Monitoring.Progress.{can_catch_up}
use omnicatena.Monitoring.Restart.{boot-le-next, last_event_lost}
use omnicatena.Tests.Fixtures.{paid}

abbrev events : List TxEvent → ℕ → List TxEvent
events b n = b

abbrev one_event : List TxEvent
one_event = paid "alice" ∷ []

abbrev start : System (List TxEvent)
start = boot 5 (some 5)

abbrev fetched : System (List TxEvent)
fetched = record start { phase = sending 6 one_event one_event }

Reach-fetched : Reach events start fetched
Reach-fetched = then_step (then_step here (tick 6 refl)) (fetch 6 one_event refl (omega arith))

Reach-IsOrdered_example : IsOrdered events 5 fetched
Reach-IsOrdered_example = Reach-IsOrdered events 5 (some 5) Reach-fetched

boot-le-next_example : (boot {B = List TxEvent} (resume_at 9 (ok (some 5))) (some 5)).next ≤ 6
boot-le-next_example =
    boot-le-next events 5 (some 5) (λ c e. ground (arith)) Reach-fetched 5 9 refl (omega arith)

last_event_lost_example :
    (t : System (List TxEvent)) × Reach events fetched t
    × (t.cursor ≡ some 6)
    × (t.service ≡ ended_saving (paid "alice"))
    × (t.saved ≡ [])
    × ((later : ℕ) (u : System (List TxEvent))
        → 6 < later
        → Reach events (boot (resume_at later (ok t.cursor)) t.cursor) u
        → 6 < u.next)
last_event_lost_example = last_event_lost events fetched 6 one_event (paid "alice") refl refl

abbrev ended : System (List TxEvent)
ended = record fetched {
  phase = sending 6 one_event [];
  service = ended_saving (paid "alice");
  received = one_event;
}

abbrev later : System (List TxEvent)
later = record ended { next = 7; phase = scanning 6; cursor = some 6; blocks = one_event ∷ [] }

can_catch_up_example :
    (t : System (List TxEvent)) × Reach events fetched t
    × (t.phase ≡ idle)
    × (t.service ≡ ready)
    × (9 < t.next)
    × (t.published ≡ events_from events 6 t.blocks)
can_catch_up_example =
    can_catch_up events (λ n. one_event) 5 (some 5) fetched Reach-fetched (λ ended. ended) 9
