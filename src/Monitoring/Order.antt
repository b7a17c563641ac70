-- ===== src/Monitoring/Order.antt =====
-- What holds in every state of a run, whatever the interleaving.
use Prim.Native.Nat.{suc, ℕ, ◌+◌}
use mathlib.Core.List.{List, [], append-nil, append_assoc, ◌++◌, ◌∷◌}
use mathlib.Core.Option.{Option}
use mathlib.Core.Path.{ap, refl, sym, ◌∙◌, ◌≡◌}
use native.Mathlib.Omega.{arith}
use omnicatena.Base.{length, length-append}
use omnicatena.Domain.{TxEvent}
use omnicatena.Monitoring.{
  Phase, Reach, Service, Step, System, advance, boot, deliver, ended_publishing, ended_saving,
  fetch, fetch_fails, here, loop_ends, publish, publish_fails, publishing, save, save_fails, saving,
  sending, then_step, tick,
}

module _ {B : Type 0} (events : B → ℕ → List TxEvent) where
  -- The events of consecutive blocks, the first of height `n`.
  abbrev pub events_from : ℕ → List B → List TxEvent
  events_from n [] = []
  events_from n (b ∷ rest) = events b n ++ events_from (n + 1) rest

  -- Events that are still to be sent, and those of the block that is being sent.
  abbrev pub left : Phase B → List TxEvent
  left (sending tip b rest) = rest
  left _ = []

  abbrev pub in_block : ℕ → Phase B → List TxEvent
  in_block n (sending tip b rest) = events b n
  in_block n _ = []

  abbrev pub unsaved : Service → List TxEvent
  unsaved (saving evt) = evt ∷ []
  unsaved (ended_saving evt) = evt ∷ []
  unsaved _ = []

  abbrev pub unpublished : Service → List TxEvent
  unpublished (publishing evt) = evt ∷ []
  unpublished (ended_publishing evt) = evt ∷ []
  unpublished _ = []

  pub record IsOrdered (last : ℕ) (s : System B) : Type 0 where
    pub heights : s.next ≡ last + 1 + length s.blocks
    pub exact :
        s.received ++ left s.phase ≡ events_from (last + 1) s.blocks ++ in_block s.next s.phase
    pub all_saved : s.received ≡ s.saved ++ unsaved s.service
    pub all_published : s.saved ≡ s.published ++ unpublished s.service

  events_from-snoc :
      (n : ℕ) (bs : List B) (b : B)
      → events_from n (bs ++ b ∷ []) ≡ events_from n bs ++ events b (n + length bs)
  events_from-snoc n [] b = append-nil (events b n) ∙ ap (events b) (omega arith)
  events_from-snoc n (c ∷ bs) b =
      ap (λ l. events c n ++ l)
        (events_from-snoc (n + 1) bs b
          ∙ ap (λ (m : ℕ). events_from (n + 1) bs ++ events b m) (omega arith))
      ∙ sym (append_assoc (events c n) (events_from (n + 1) bs) (events b (n + suc (length bs))))

  Step-IsOrdered :
      {last : ℕ} {s t : System B} → Step events s t → IsOrdered last s → IsOrdered last t
  Step-IsOrdered (tick tip p) h = ground arith
  Step-IsOrdered (loop_ends tip p q) h = ground arith
  Step-IsOrdered (fetch_fails tip p q) h = ground arith
  Step-IsOrdered {last} {s} (fetch tip b p q) h =
      ground (arith, append-nil s.received, append-nil (events_from (last + 1) s.blocks))
  Step-IsOrdered {s = s} (deliver tip b evt rest p q) h =
      ground (arith, append_assoc s.received (evt ∷ []) rest, append-nil s.saved)
  Step-IsOrdered {last} {s} (advance tip b stored p) h = ground (
    arith,
    length-append s.blocks (b ∷ []),
    append-nil s.received,
    append-nil (events_from (last + 1) (s.blocks ++ b ∷ [])),
    events_from-snoc (last + 1) s.blocks b,
  )
  Step-IsOrdered {s = s} (save evt p) h =
      ground (arith, append-nil (s.saved ++ evt ∷ []), append-nil s.published)
  Step-IsOrdered (save_fails evt p) h = ground arith
  Step-IsOrdered {s = s} (publish evt p) h = ground (arith, append-nil (s.published ++ evt ∷ []))
  Step-IsOrdered (publish_fails evt p) h = ground arith

  -- In every state of a run that began after the block `last`: `next` counts on from `last` without a gap;
  -- the service has received the events of the blocks that are done, each once and in order, and those
  -- of the current block but for the ones left to send; what it received is saved but for the one
  -- event in SaveEvent, or at which it failed; and what is saved is published but for one event likewise.
  pub Reach-IsOrdered :
      (last : ℕ) (cursor : Option ℕ) {s : System B}
      → Reach events (boot last cursor) s
      → IsOrdered last s
  Reach-IsOrdered last cursor here = record {
    heights = omega arith;
    exact = refl;
    all_saved = refl;
    all_published = refl;
  }
  Reach-IsOrdered last cursor (then_step r st) = Step-IsOrdered st (Reach-IsOrdered last cursor r)
