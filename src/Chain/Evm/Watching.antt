-- ===== src/Chain/Evm/Watching.antt =====
-- The watcher of internal/adapter/chain/evm/watcher.go as `port.ChainWatcher`: its configuration, and
-- `Watch` with the goroutine that it starts.
use Prim.Native.Nat.{ℕ}
use mathlib.Core.List.{List, [], ◌∷◌}
use mathlib.Core.Option.{Option, none, some}
use omnicatena.Base.{Eq}
use omnicatena.Base.Bytes.{Bytes}
use omnicatena.Base.Exec.{Exec, ◌>>=◌}
use omnicatena.Base.Int.{ℤ}
use omnicatena.Base.Map.{Map}
use omnicatena.Base.Result.{Result, bytes, wrap, ◌|>◌}
use omnicatena.Chain.Evm.Client.{EvmConfig, TxView}
use omnicatena.Chain.Evm.Match.{watched_of}
use omnicatena.Chain.Evm.Watcher.{BlockClient, watch_from}
use omnicatena.Domain.{Address}
use omnicatena.Port.{ChainCursorStore, ChainWatcher, Selected}

pub record Watcher (S Tx : Type 0) : Type 0 where
  pub cfg : EvmConfig
  pub client : BlockClient S Tx
  pub cursor : Option (ChainCursorStore S)

module _ {S Tx : Type 0} where
  -- `dial` is ethclient.Dial.
  unfoldable pub new_watcher :
      (Bytes → Result (BlockClient S Tx)) → EvmConfig → Result (Watcher S Tx)
  new_watcher dial cfg =
      wrap "evm: watcher dial %s: %w" (bytes cfg.rpc_url ∷ []) (dial cfg.rpc_url) |> λ client.
      record { cfg = cfg; client = client; cursor = none }

  unfoldable pub set_cursor_store : ChainCursorStore S → Watcher S Tx → Watcher S Tx
  set_cursor_store store w = record w { cursor = some store }

  module _ {EthAddress : Type 0} ⦃e : Eq EthAddress⦄ (view : ℤ → TxView EthAddress Tx)
      (go_poll : Watcher S Tx → ℕ → Map EthAddress Address → Exec S (List Selected)) where
    -- `go_poll` starts poll as a goroutine and gives the channel that it sends to; `view` has the signer
    -- for a chain's id.
    unfoldable pub watch : Watcher S Tx → List Address → Exec S (List Selected)
    watch w addrs = watch_from w.client w.cursor w.cfg.chain >>= λ from.
        go_poll w from (watched_of (view w.cfg.chain_id) addrs)

    abbrev pub evm_watcher : Watcher S Tx → ChainWatcher S
    evm_watcher w = record { chain = w.cfg.chain; watch = watch w }
