-- ===== src/Monitoring/Progress.antt =====
-- What the watcher and the monitor service can always still do.
use Prim.Native.Nat.{suc, zero, ℕ, ◌+◌, ◌<◌}
use mathlib.Core.Bool.{true}
use mathlib.Core.List.{List, [], append-nil, ◌++◌, ◌∷◌}
use mathlib.Core.Logic.{inl, inr}
use mathlib.Core.Option.{Option, some}
use mathlib.Core.Path.{refl, subst, sym, ◌∙◌, ◌≡◌}
use native.Mathlib.Omega.{arith}
use omnicatena.Base.{Bool-cases, ltb, ltb→lt}
use omnicatena.Domain.{TxEvent}
use omnicatena.Monitoring.{
  Phase, Reach, Service, System, advance, boot, deliver, ended_publishing, ended_saving, fetch,
  here, idle, loop_ends, publish, publishing, ready, save, saving, scanning, sending, then_step,
  tick,
}
use omnicatena.Monitoring.Order.{Reach-IsOrdered, events_from, in_block, left, unpublished, unsaved}
use omnicatena.Monitoring.Restart.{HasEnded}

-- `block_at` has a block for each height.
module _ {B : Type 0} (events : B → ℕ → List TxEvent) (block_at : ℕ → B) where
  Reach-trans : {s t u : System B} → Reach events s t → Reach events t u → Reach events s u
  Reach-trans r here = r
  Reach-trans r (then_step q st) = then_step (Reach-trans r q) st

  -- The service can finish what it is doing.
  finish_service :
      (s : System B)
      → ¬ HasEnded events s.service
      → (t : System B) × Reach events s t × (t.service ≡ ready) × (t.phase ≡ s.phase)
  finish_service s alive = go s.service refl
    where
      go :
          (x : Service)
          → s.service ≡ x
          → (t : System B) × Reach events s t × (t.service ≡ ready) × (t.phase ≡ s.phase)
      go ready e = (s, here, e, refl)
      go (saving evt) e = (
        record s {
          service = ready;
          saved = s.saved ++ evt ∷ [];
          published = s.published ++ evt ∷ [];
        },
        then_step (then_step here (save evt e)) (publish evt refl),
        refl,
        refl,
      )
      go (publishing evt) e = (
        record s { service = ready; published = s.published ++ evt ∷ [] },
        then_step here (publish evt e),
        refl,
        refl,
      )
      go (ended_saving evt) e = absurd (alive (subst (HasEnded events) (sym e) tt))
      go (ended_publishing evt) e = absurd (alive (subst (HasEnded events) (sym e) tt))

  -- The events that are left of a block can be sent, saved and published, and the block be done.
  finish_block :
      (tip : ℕ) (b : B) (rest : List TxEvent) (s : System B)
      → s.phase ≡ sending tip b rest
      → s.service ≡ ready
      → (t : System B) × Reach events s t
        × (t.phase ≡ scanning tip)
        × (t.service ≡ ready)
        × (t.next ≡ s.next + 1)
  finish_block tip b [] s p q = (
    record s {
      next = s.next + 1;
      phase = scanning tip;
      cursor = some s.next;
      blocks = s.blocks ++ b ∷ [];
    },
    then_step here (advance tip b true p),
    refl,
    q,
    refl,
  )
  finish_block tip b (evt ∷ rest) s p q =
      let after : System B = record s {
        phase = sending tip b rest;
        service = ready;
        received = s.received ++ evt ∷ [];
        saved = s.saved ++ evt ∷ [];
        published = s.published ++ evt ∷ [];
      } in
      let three : Reach events s after =
        then_step (then_step (then_step here (deliver tip b evt rest p q)) (save evt refl))
          (publish evt refl) in
      let (t, r, phase, service, next) = finish_block tip b rest after refl refl in
      (t, Reach-trans three r, phase, service, next)

  -- The loop can run up to its tip, in at most `rounds` blocks.
  finish_scan :
      (rounds tip : ℕ) (s : System B)
      → s.phase ≡ scanning tip
      → s.service ≡ ready
      → tip < s.next + rounds
      → (t : System B) × Reach events s t × (t.phase ≡ idle) × (t.service ≡ ready) × (tip < t.next)
  finish_scan zero tip s p q h = (
    record s { phase = idle },
    then_step here (loop_ends tip p (omega arith)),
    refl,
    q,
    omega arith,
  )
  finish_scan (suc rounds) tip s p q h = elim (Bool-cases (ltb tip s.next)) [
    | inl past ↦
        let over = ltb→lt tip s.next past in
        (record s { phase = idle }, then_step here (loop_ends tip p over), refl, q, over)
    | inr more ↦
        let b = block_at s.next in
        let fetched : System B = record s { phase = sending tip b (events b s.next) } in
        let got : Reach events s fetched = then_step here (fetch tip b p (ground arith)) in
        let (t, r, phase, service, next) = finish_block tip b (events b s.next) fetched refl q in
        let (u, r', idle_again, service', over) =
          finish_scan rounds tip t phase service (omega arith) in
        (u, Reach-trans got (Reach-trans r r'), idle_again, service', over)
  ]

  -- From any state in which the service has not returned, the two can come to rest.
  come_to_rest :
      (s : System B)
      → ¬ HasEnded events s.service
      → (t : System B) × Reach events s t × (t.phase ≡ idle) × (t.service ≡ ready)
  come_to_rest s alive =
      let (t, r, service, same) = finish_service s alive in
      let (u, r', phase, service') = go t.phase t refl service in
      (u, Reach-trans r r', phase, service')
    where
      go :
          (x : Phase B) (t : System B)
          → t.phase ≡ x
          → t.service ≡ ready
          → (u : System B) × Reach events t u × (u.phase ≡ idle) × (u.service ≡ ready)
      go idle t e q = (t, here, e, q)
      go (scanning tip) t e q =
          let (u, r, phase, service, over) = finish_scan (tip + 1) tip t e q (omega arith) in
          (u, r, phase, service)
      go (sending tip b rest) t e q =
          let (m, r, at, service, next) = finish_block tip b rest t e q in
          let (u, r', phase, service', over) =
            finish_scan (tip + 1) tip m at service (omega arith) in
          (u, Reach-trans r r', phase, service')

  -- The system can always catch up: from every state of a run in which the service has not returned,
  -- and for every height, steps lead to a state in which the watcher waits for its ticker past that
  -- height, the service waits for an event, and the events of all the blocks that are done are
  -- published, each once and in order. The node has a block at each height.
  pub can_catch_up :
      (last : ℕ) (cursor : Option ℕ) (s : System B)
      → Reach events (boot last cursor) s
      → ¬ HasEnded events s.service
      → (tip : ℕ)
      → (t : System B) × Reach events s t
        × (t.phase ≡ idle)
        × (t.service ≡ ready)
        × (tip < t.next)
        × (t.published ≡ events_from events (last + 1) t.blocks)
  can_catch_up last cursor s run alive tip =
      let (m, r, phase, service) = come_to_rest s alive in
      let ticked : System B = record m { phase = scanning tip } in
      let (t, r', phase', service', over) =
        finish_scan (tip + 1) tip ticked refl service (omega arith) in
      let whole = Reach-trans r (Reach-trans (then_step here (tick tip phase)) r') in
      let ordered = Reach-IsOrdered events last cursor (Reach-trans run whole) in
      (
        t,
        whole,
        phase',
        service',
        over,
        all_published (last + 1) t phase' service' ordered.exact ordered.all_saved
            ordered.all_published,
      )
    where
      all_published :
          (n : ℕ) (t : System B)
          → t.phase ≡ idle
          → t.service ≡ ready
          → t.received ++ left events t.phase
            ≡ events_from events n t.blocks ++ in_block events t.next t.phase
          → t.received ≡ t.saved ++ unsaved events t.service
          → t.saved ≡ t.published ++ unpublished events t.service
          → t.published ≡ events_from events n t.blocks
      all_published n t p q e1 e2 e3 =
          let a : t.received ≡ events_from events n t.blocks =
            sym (append-nil t.received)
            ∙ subst
                (λ x.
                  t.received ++ left events x
                  ≡ events_from events n t.blocks ++ in_block events t.next x)
                p e1
            ∙ append-nil (events_from events n t.blocks) in
          let b : t.received ≡ t.saved =
            subst (λ x. t.received ≡ t.saved ++ unsaved events x) q e2 ∙ append-nil t.saved in
          let c : t.saved ≡ t.published =
            subst (λ x. t.saved ≡ t.published ++ unpublished events x) q e3
            ∙ append-nil t.published in
          sym (b ∙ c) ∙ a
