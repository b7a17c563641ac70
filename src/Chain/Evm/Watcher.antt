-- ===== src/Chain/Evm/Watcher.antt =====
-- `Watch` and `poll` of internal/adapter/chain/evm/watcher.go, as they run on the state `S` of the
-- node, the cursor store and the channel. Log lines are not modelled.
pub mod Scan
use Prim.Native.Nat.{suc, zero, ℕ, ◌+◌, ◌-◌}
use mathlib.Core.Bool.{Bool, false, true}
use mathlib.Core.List.{List, [], ◌∷◌}
use mathlib.Core.Option.{Option, none, some}
use omnicatena.Base.{if◌then◌else◌, ltb}
use omnicatena.Base.Exec.{Exec, attempt, pure, wrapped, ◌>>=◌, ◌>>◌}
use omnicatena.Base.Result.{Result, err, ok}
use omnicatena.Chain.Evm.Client.{Block}
use omnicatena.Domain.{ChainId, TxEvent}
use omnicatena.Port.{ChainCursorStore}

pub record BlockClient (S Tx : Type 0) : Type 0 where
  pub block_number : Exec S ℕ
  pub block_by_number : ℕ → Exec S (Block Tx)

-- The cursor that was saved, where it is behind the tip.
unfoldable pub resume_at : ℕ → Result (Option ℕ) → ℕ
resume_at tip (err e) = tip
resume_at tip (ok none) = tip
resume_at tip (ok (some saved)) = if ltb saved tip then saved else tip

module _ {S Tx : Type 0} (client : BlockClient S Tx) (store : Option (ChainCursorStore S))
    (chain : ChainId) where
  -- `from` in Watch: the last block that counts as scanned.
  unfoldable pub watch_from : Exec S ℕ
  watch_from = wrapped "evm: watcher latest block: %w" [] client.block_number >>= λ tip.
      elim store [
        | none ↦ pure tip
        | some c ↦ attempt (c.get chain) >>= λ saved. pure (resume_at tip saved)
      ]

  -- A cursor that cannot be stored is passed over.
  save_cursor : ℕ → Exec S (Unit {0})
  save_cursor n = elim store [ none ↦ pure tt | some c ↦ attempt (c.set chain n) >>= λ r. pure tt ]

  -- `send` gives an event to the channel; it answers false if the context was cancelled instead.
  module _ (events : Block Tx → ℕ → List TxEvent) (send : TxEvent → Exec S Bool) where
    send_all : List TxEvent → Exec S Bool
    send_all [] = pure true
    send_all (evt ∷ rest) = send evt >>= λ sent. (if sent then send_all rest else pure false)

    -- The loop over n = next … tip, with the blocks that are left. The result is the new `next`, and
    -- whether the watch goes on.
    scan : ℕ → ℕ → Exec S (ℕ × Bool)
    scan zero n = pure (n, true)
    scan (suc left) n = attempt (client.block_by_number n) >>= λ r. elim r [
      | err e ↦ pure (n, true)
      | ok block ↦ send_all (events block n) >>= λ sent. elim sent [
        | true ↦ save_cursor n >>= λ u. scan left (n + 1)
        | false ↦ pure (n, false)
      ]
    ]

    -- One tick of poll.
    unfoldable pub poll_tick : ℕ → Exec S (ℕ × Bool)
    unfolding scan send_all save_cursor
    poll_tick next = attempt client.block_number >>= λ r. elim r [
      | err e ↦ pure (next, true)
      | ok tip ↦ scan (tip + 1 - next) next
    ]
