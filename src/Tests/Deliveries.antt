-- ===== src/Tests/Deliveries.antt =====
-- A tick over two blocks, whose events are saved and published.
use Prim.Native.Nat.{ℕ, ◌+◌}
use Prim.Native.String.{String}
use mathlib.Core.Bool.{Bool, false}
use mathlib.Core.List.{[]}
use mathlib.Core.Logic.{inl, inr}
use mathlib.Core.Option.{Option, some}
use mathlib.Core.Path.{refl, ◌≡◌}
use native.Mathlib.Omega.{arith}
use omnicatena.App.Monitor.{owner_of, owners, watch_loop}
use omnicatena.App.Monitor.Delivered.{IsRecorded, no_transfer_lost, run, sent_by}
use omnicatena.Base.{string_eq}
use omnicatena.Base.Map.{insert, lookup}
use omnicatena.Base.Result.{Result, err, ok, sentinel}
use omnicatena.Chain.Evm.Client.{Block}
use omnicatena.Chain.Evm.Match.{match_transactions, watched_of}
use omnicatena.Chain.Evm.Watcher.{poll_tick}
use omnicatena.Chain.Registry.{Registry}
use omnicatena.Domain.{TxEventType, account, inbound, outbound}
use omnicatena.Port.{ChainWatcher, TxEventPublisher}
use omnicatena.Repository.Events.{
  block_height_or_nil, from_to, insert_link, non_empty, numeric, save_event, transaction_row,
  upsert_transaction,
}
use omnicatena.Repository.Tables.{Db, serving, transaction}
use omnicatena.Repository.Wallets.{find_row, replace_rows, rows_where}
use omnicatena.Tests.Monitors.{
  alice_account, alice_found, alice_wallet, same_order-RangesOver, two_wallets,
}
use omnicatena.Tests.Tables.{alice_tables}
use omnicatena.Tests.Watchers.{block_txs, pair_view}

abbrev pair_block : Block (String × String)
pair_block = record { transactions = block_txs; time = 100 }

abbrev pair_blocks : ℕ → Result (Block (String × String))
pair_blocks n = ok pair_block

abbrev counting : TxEventPublisher ℕ
counting = record { publish = λ evt n. (ok tt, n + 1) }

abbrev nothing_wired : Registry (Db × ℕ) (ChainWatcher (Db × ℕ))
nothing_wired = record { adapters = []; watchers = [] }

abbrev run_pair : Db × ℕ → Result Bool × (Db × ℕ)
run_pair =
    run pair_view "ethereum" same_order-RangesOver two_wallets 7 pair_blocks
      (λ n. err (sentinel "down")) nothing_wired (λ db. 700) counting 6 (some 5)

abbrev after : Db × ℕ
after = (run_pair (serving alice_tables 1, 0)).1

abbrev RecordedBy : TxEventType → Type 0
RecordedBy kind =
    IsRecorded pair_view "ethereum" same_order-RangesOver two_wallets 7 pair_blocks
      (λ n. err (sentinel "down")) nothing_wired (λ db. 700) counting kind 7 100 ("alice", "bob")
      alice_account after
      (sent_by pair_view "ethereum" same_order-RangesOver two_wallets 7 pair_blocks
        (λ n. err (sentinel "down")) 6 (some 5))

ran : run_pair (serving alice_tables 1, 0) ≡ (ok false, after)
unfolding watch_loop poll_tick match_transactions watched_of owners account insert lookup save_event
    transaction upsert_transaction insert_link numeric transaction_row from_to non_empty
    block_height_or_nil replace_rows rows_where find_row owner_of
ran = refl

no_transfer_lost_example :
    (◌≡◌ {A = Result String} (ok "alice") (ok "alice") → RecordedBy outbound)
    × (◌≡◌ {A = Option String} (some "bob") (some "alice") → RecordedBy inbound)
no_transfer_lost_example =
    no_transfer_lost pair_view "ethereum" same_order-RangesOver two_wallets 7 pair_blocks
      (λ n. err (sentinel "down")) nothing_wired (λ db. 700) counting 6 7 (some 5) pair_block
      alice_wallet alice_account ("alice", "bob") (serving alice_tables 1, 0) after (omega arith)
      (omega arith) (λ k low high. (pair_block, refl)) refl (inr (inl refl)) alice_found (inl refl)
      ran
