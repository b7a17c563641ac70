-- ===== src/Monitoring/Restart.antt =====
-- The cursor, a restart of the process, and a service that has returned.
use Prim.Native.Nat.{ℕ, ◌+◌, ◌<◌, ◌≤◌}
use mathlib.Core.Bool.{false, true}
use mathlib.Core.List.{List, [], ◌++◌, ◌∷◌}
use mathlib.Core.Option.{Option, some}
use mathlib.Core.Path.{refl, subst, sym, ◌∙◌, ◌≡◌}
use native.Mathlib.Omega.{arith}
use omnicatena.Base.Result.{ok}
use omnicatena.Chain.Evm.Watcher.{resume_at}
use omnicatena.Domain.{TxEvent}
use omnicatena.Monitoring.{
  Reach, Service, Step, System, advance, boot, deliver, ended_publishing, ended_saving, fetch,
  fetch_fails, here, loop_ends, publish, publish_fails, ready, save, save_fails, scanning, sending,
  then_step, tick,
}

module _ {B : Type 0} (events : B → ℕ → List TxEvent) where
  abbrev pub IsBehind : System B → Type 0
  IsBehind s = (c : ℕ) → s.cursor ≡ some c → c < s.next

  Step-IsBehind : {s t : System B} → Step events s t → IsBehind s → IsBehind t
  Step-IsBehind (tick tip p) h = h
  Step-IsBehind (loop_ends tip p q) h = h
  Step-IsBehind (fetch_fails tip p q) h = h
  Step-IsBehind (fetch tip b p q) h = h
  Step-IsBehind (deliver tip b evt rest p q) h = h
  Step-IsBehind (advance tip b true p) h = λ c e. ground arith
  Step-IsBehind (advance tip b false p) h = λ c e. ground (arith, h c)
  Step-IsBehind (save evt p) h = h
  Step-IsBehind (save_fails evt p) h = h
  Step-IsBehind (publish evt p) h = h
  Step-IsBehind (publish_fails evt p) h = h

  Reach-IsBehind : {s t : System B} → Reach events s t → IsBehind s → IsBehind t
  Reach-IsBehind here h = h
  Reach-IsBehind (then_step r st) h = Step-IsBehind st (Reach-IsBehind r h)

  -- Whenever the process is restarted, with the node ahead of the stored cursor, the new run begins
  -- no later than at the first block that the old run had not done: no block is passed over. The old
  -- run had begun with a cursor that was not ahead of its start.
  pub boot-le-next :
      (last : ℕ) (cursor : Option ℕ) {s : System B}
      → ((c : ℕ) → cursor ≡ some c → c ≤ last)
      → Reach events (boot last cursor) s
      → (c tip : ℕ) → s.cursor ≡ some c
      → c < tip
      → (boot {B = B} (resume_at tip (ok s.cursor)) s.cursor).next ≤ s.next
  unfolding resume_at
  boot-le-next last cursor {s} old r c tip e ahead =
      let behind = Reach-IsBehind r (λ d q. omega (arith, old d q)) c e in rw e (ground arith)

  next_grows : {s t : System B} → Step events s t → s.next ≤ t.next
  next_grows (advance tip b stored p) = omega arith
  next_grows (tick tip p) = omega arith
  next_grows (loop_ends tip p q) = omega arith
  next_grows (fetch_fails tip p q) = omega arith
  next_grows (fetch tip b p q) = omega arith
  next_grows (deliver tip b evt rest p q) = omega arith
  next_grows (save evt p) = omega arith
  next_grows (save_fails evt p) = omega arith
  next_grows (publish evt p) = omega arith
  next_grows (publish_fails evt p) = omega arith

  pub next_mono : {s t : System B} → Reach events s t → s.next ≤ t.next
  next_mono here = omega arith
  next_mono (then_step r st) = omega (arith, next_mono r, next_grows st)

  -- The last event of a block can be lost: from any state in which it is about to be sent and the service
  -- is ready, steps lead to one in which the service has returned without saving it, and the cursor
  -- already is the block's height. Every run that a restart begins there, with the node ahead, is past
  -- that block from the start and in all its states.
  pub last_event_lost :
      (s : System B) (tip : ℕ) (b : B) (evt : TxEvent)
      → s.phase ≡ sending tip b (evt ∷ [])
      → s.service ≡ ready
      → (t : System B) × Reach events s t
        × (t.cursor ≡ some s.next)
        × (t.service ≡ ended_saving evt)
        × (t.saved ≡ s.saved)
        × ((later : ℕ) (u : System B)
            → s.next < later
            → Reach events (boot (resume_at later (ok t.cursor)) t.cursor) u
            → s.next < u.next)
  unfolding resume_at
  last_event_lost s tip b evt p q = (
    record s {
      next = s.next + 1;
      phase = scanning tip;
      service = ended_saving evt;
      cursor = some s.next;
      blocks = s.blocks ++ b ∷ [];
      received = s.received ++ evt ∷ [];
    },
    then_step (then_step (then_step here (deliver tip b evt [] p q)) (advance tip b true refl))
        (save_fails evt refl),
    refl,
    refl,
    refl,
    λ later u ahead r. ground (arith, next_mono r),
  )

  abbrev pub HasEnded : Service → Type 0
  HasEnded (ended_saving evt) = Unit
  HasEnded (ended_publishing evt) = Unit
  HasEnded _ = ⊥

  record Same (s t : System B) : Type 0 where
    service : t.service ≡ s.service
    received : t.received ≡ s.received
    saved : t.saved ≡ s.saved
    published : t.published ≡ s.published

  Step-Same : {s t : System B} → Step events s t → HasEnded s.service → Same s t
  Step-Same (tick tip p) h = record {
    service = refl;
    received = refl;
    saved = refl;
    published = refl;
  }
  Step-Same (loop_ends tip p q) h = record {
    service = refl;
    received = refl;
    saved = refl;
    published = refl;
  }
  Step-Same (fetch_fails tip p q) h = record {
    service = refl;
    received = refl;
    saved = refl;
    published = refl;
  }
  Step-Same (fetch tip b p q) h = record {
    service = refl;
    received = refl;
    saved = refl;
    published = refl;
  }
  Step-Same (deliver tip b evt rest p q) h = absurd (subst HasEnded q h)
  Step-Same (advance tip b stored p) h = record {
    service = refl;
    received = refl;
    saved = refl;
    published = refl;
  }
  Step-Same (save evt p) h = absurd (subst HasEnded p h)
  Step-Same (save_fails evt p) h = absurd (subst HasEnded p h)
  Step-Same (publish evt p) h = absurd (subst HasEnded p h)
  Step-Same (publish_fails evt p) h = absurd (subst HasEnded p h)

  Reach-Same : {s t : System B} → Reach events s t → HasEnded s.service → Same s t
  Reach-Same here h = record { service = refl; received = refl; saved = refl; published = refl }
  Reach-Same {s} (then_step {t} r st) h =
      let a = Reach-Same r h in
      let b = Step-Same st (subst HasEnded (sym a.service) h) in
      record {
        service = b.service ∙ a.service;
        received = b.received ∙ a.received;
        saved = b.saved ∙ a.saved;
        published = b.published ∙ a.published;
      }

  stuck :
      {s t : System B} {tip : ℕ} {b : B} {evt : TxEvent} {rest : List TxEvent}
      → HasEnded s.service
      → s.phase ≡ sending tip b (evt ∷ rest)
      → ¬ Step events s t
  stuck h e (tick tip p) = cc
  stuck h e (loop_ends tip p q) = cc
  stuck h e (fetch_fails tip p q) = cc
  stuck h e (fetch tip b p q) = cc
  stuck h e (deliver tip b evt rest p q) = subst HasEnded q h
  stuck h e (advance tip b stored p) = cc
  stuck h e (save evt p) = subst HasEnded p h
  stuck h e (save_fails evt p) = subst HasEnded p h
  stuck h e (publish evt p) = subst HasEnded p h
  stuck h e (publish_fails evt p) = subst HasEnded p h

  -- Once the service has returned at an error, it receives, saves and publishes nothing more, whatever
  -- steps follow; and as soon as the watcher has an event to send, no step at all is possible.
  pub service_ended :
      {s t : System B}
      → Reach events s t
      → HasEnded s.service
      → (t.received ≡ s.received)
        × (t.saved ≡ s.saved)
        × (t.published ≡ s.published)
        × ((tip : ℕ) (b : B) (evt : TxEvent) (rest : List TxEvent) (u : System B)
            → t.phase ≡ sending tip b (evt ∷ rest)
            → ¬ Step events t u)
  service_ended r h =
      let a = Reach-Same r h in
      (
        a.received,
        a.saved,
        a.published,
        λ tip b evt rest u e. stuck (subst HasEnded (sym a.service) h) e,
      )
