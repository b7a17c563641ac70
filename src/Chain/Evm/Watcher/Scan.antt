-- ===== src/Chain/Evm/Watcher/Scan.antt =====
-- A tick against a node that serves some blocks, with a channel whose events are all taken and a store
-- that may refuse a cursor.
use Prim.Native.Nat.{suc, zero, ℕ, ◌+◌, ◌-◌, ◌<◌, ◌≤◌}
use mathlib.Core.Bool.{Bool, true}
use mathlib.Core.List.{List, [], append-nil, append_assoc, ◌++◌, ◌∷◌}
use mathlib.Core.Logic.{inl, inr}
use mathlib.Core.Option.{Option, some}
use mathlib.Core.Path.{ap, ap₂, refl, subst, sym, ◌∙◌, ◌≡◌}
use native.Mathlib.Omega.{arith}
use omnicatena.Base.{Any, Any-append_left, Any-append_right, Bool-cases, ltb, ltb→lt}
use omnicatena.Base.Exec.{Exec, continue, pure}
use omnicatena.Base.Result.{Error, Result, err, ok}
use omnicatena.Chain.Evm.Client.{Block}
use omnicatena.Chain.Evm.Watcher.{BlockClient, poll_tick, save_cursor, scan, send_all}
use omnicatena.Domain.{ChainId, TxEvent}
use omnicatena.Port.{ChainCursorStore}

-- What has been sent, and the cursor.
pub record Trace : Type 0 where
  pub sent : List TxEvent
  pub cursor : Option ℕ

module _ {Tx : Type 0} (events : Block Tx → ℕ → List TxEvent) (tip : Result ℕ)
    (blocks : ℕ → Result (Block Tx)) (stored : ℕ → Result (Unit {0})) where
  abbrev pub node : BlockClient Trace Tx
  node = record { block_number = λ s. (tip, s); block_by_number = λ n s. (blocks n, s) }

  -- The cursor after the store was asked to keep `n`.
  abbrev pub kept : ℕ → Option ℕ → Option ℕ
  kept n c = elim (stored n) [ err e ↦ c | ok _ ↦ some n ]

  abbrev pub cursors : ChainCursorStore Trace
  cursors = record {
    get = λ chain s. (ok s.cursor, s);
    set = λ chain n s. (stored n, record s { cursor = kept n s.cursor });
  }

  abbrev pub take_event : TxEvent → Exec Trace Bool
  take_event evt s = (ok true, record s { sent = s.sent ++ evt ∷ [] })

  -- The events of the blocks from `n` on, up to the first that the node does not serve, and how many
  -- blocks those are: at most `left`.
  unfoldable pub served : ℕ → ℕ → List TxEvent × ℕ
  served zero n = ([], 0)
  served (suc left) n = elim (blocks n) [
    | err e ↦ ([], 0)
    | ok block ↦ let (evts, k) = served left (n + 1) in (events block n ++ evts, suc k)
  ]

  -- The cursor after the store was asked to keep the `k` heights from `n` on, one after the other.
  abbrev pub last_of : ℕ → ℕ → Option ℕ → Option ℕ
  last_of n zero c = c
  last_of n (suc k) c = last_of (n + 1) k (kept n c)

  send_all-eq :
      (chain : ChainId) (evts : List TxEvent) (s : Trace)
      → send_all node (some cursors) chain events take_event evts s
        ≡ (ok true, record s { sent = s.sent ++ evts })
  unfolding send_all
  send_all-eq chain [] s =
      ap (λ (l : List TxEvent). (ok true, record s { sent = l })) (sym (append-nil s.sent))
  send_all-eq chain (evt ∷ rest) s =
      send_all-eq chain rest (record s { sent = s.sent ++ evt ∷ [] })
      ∙ ap (λ (l : List TxEvent). (ok true, record s { sent = l }))
          (append_assoc s.sent (evt ∷ []) rest)

  scan_served :
      (chain : ChainId) (left n : ℕ) (block : Block Tx) (s : Trace)
      → blocks n ≡ ok block
      → scan node (some cursors) chain events take_event (suc left) n s
        ≡ scan node
            (some cursors)
            chain
            events
            take_event
            left
            (n + 1)
            (record { sent = s.sent ++ events block n; cursor = kept n s.cursor })
  unfolding scan save_cursor
  scan_served chain left n block s h = rw (h, scan) (rw (send_all-eq chain (events block n) s))

  scan_refused :
      (chain : ChainId) (left n : ℕ) (e : Error) (s : Trace)
      → blocks n ≡ err e
      → scan node (some cursors) chain events take_event (suc left) n s ≡ (ok (n, true), s)
  unfolding scan
  scan_refused chain left n e s h = rw (h, scan)

  abbrev pub outcome : ℕ → List TxEvent × ℕ → Trace → Result (ℕ × Bool) × Trace
  outcome n (evts, k) s =
      (ok (n + k, true), record { sent = s.sent ++ evts; cursor = last_of n k s.cursor })

  outcome-nil : (n : ℕ) (s : Trace) → (ok (n, true), s) ≡ outcome n ([], 0) s
  outcome-nil n s =
      ap₂ (λ (m : ℕ) (l : List TxEvent). (ok (m, true), record s { sent = l })) (omega arith)
        (sym (append-nil s.sent))

  outcome-cons :
      (n k : ℕ) (xs ys : List TxEvent) (s : Trace)
      → outcome (n + 1) (ys, k) (record { sent = s.sent ++ xs; cursor = kept n s.cursor })
        ≡ outcome n (xs ++ ys, suc k) s
  outcome-cons n k xs ys s = λ i. (
    ok ((let e : n + 1 + k ≡ n + suc k = omega arith in e) i, true),
    record { sent = append_assoc s.sent xs ys i; cursor = last_of n (suc k) s.cursor },
  )

  scan-eq :
      (chain : ChainId) (left n : ℕ) (s : Trace)
      → scan node (some cursors) chain events take_event left n s ≡ outcome n (served left n) s
  scan-eq chain zero n s = unfold scan served in outcome-nil n s
  scan-eq chain (suc left) n s = go (blocks n) refl (scan-eq chain left (n + 1))
    where
      go :
          (r : Result (Block Tx))
          → blocks n ≡ r
          → ((t : Trace)
              → scan node (some cursors) chain events take_event left (n + 1) t
                ≡ outcome (n + 1) (served left (n + 1)) t)
          → scan node (some cursors) chain events take_event (suc left) n s
            ≡ outcome n (served (suc left) n) s
      go (err e) h ih =
          scan_refused chain left n e s h ∙ unfold served in rw (h, served) (outcome-nil n s)
      go (ok block) h ih =
          scan_served chain left n block s h
          ∙ ih (record { sent = s.sent ++ events block n; cursor = kept n s.cursor })
          ∙ outcome-cons n (served left (n + 1)).1 (events block n) (served left (n + 1)).0 s
          ∙ unfold served in rw (h, served)

  pub poll_tick-eq :
      (chain : ChainId) (next : ℕ) (s : Trace)
      → poll_tick node (some cursors) chain events take_event next s ≡ elim tip [
        | err e ↦ (ok (next, true), s)
        | ok t ↦ outcome next (served (t + 1 - next) next) s
      ]
  unfolding poll_tick
  poll_tick-eq chain next s = go tip
    where
      go :
          (r : Result ℕ)
          → continue (continue (ok r, s) (λ q. pure q)) (λ q. elim q [
            | err e ↦ pure (next, true)
            | ok t ↦ scan node (some cursors) chain events take_event (t + 1 - next) next
          ])
            ≡ elim r [
              | err e ↦ (ok (next, true), s)
              | ok t ↦ outcome next (served (t + 1 - next) next) s
            ]
      go (err e) = refl
      go (ok t) = scan-eq chain (t + 1 - next) next s

  served-suc :
      (left n : ℕ) {b : Block Tx}
      → blocks n ≡ ok b
      → events b n ++ (served left (n + 1)).0 ≡ (served (suc left) n).0
  unfolding served
  served-suc left n {b} h = rw (h, served) refl

  -- What one of the events of a block is, one of the events sent is, where the node serves the blocks
  -- up to this one.
  pub served-Any :
      (P : TxEvent → Type 0) (m : ℕ) (block : Block Tx)
      → blocks m ≡ ok block
      → Any P (events block m)
      → (left n : ℕ) → n ≤ m
      → m < n + left
      → ((k : ℕ) → n ≤ k → k < m → (b : Block Tx) × (blocks k ≡ ok b))
      → Any P (served left n).0
  served-Any P m block here has zero n low high earlier = absurd (omega arith)
  served-Any P m block here has (suc left) n low high earlier = elim (Bool-cases (ltb n m)) [
    | inl before ↦
        let lt = ltb→lt n m before in
        let (b, there) = earlier n (omega arith) lt in
        let later =
          served-Any P m block here has left (n + 1) (omega arith) (omega arith)
            (λ k a. earlier k (omega arith)) in
        subst (Any P) (served-suc left n there)
          (Any-append_right P (events b n) (served left (n + 1)).0 later)
    | inr at ↦
        let same : n ≡ m = ground arith in
        subst (Any P) (served-suc left n (ap blocks same ∙ here)) (
          Any-append_left P (events block n) (served left (n + 1)).0
            (subst (λ k. Any P (events block k)) (sym same) has))
  ]
