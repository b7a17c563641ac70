-- ===== src/Tests/Watchers.antt =====
-- A tick over two blocks, and the matching of their transactions.
use Prim.Native.Nat.{ℕ}
use Prim.Native.String.{String}
use mathlib.Core.Bool.{true}
use mathlib.Core.List.{List, [], map, ◌∷◌}
use mathlib.Core.Option.{some}
use mathlib.Core.Path.{◌≡◌}
use omnicatena.Base.{All, eqb, if◌then◌else◌, ltb, string_eq}
use omnicatena.Base.Int.{pos}
use omnicatena.Base.Result.{Result, err, ok, sentinel}
use omnicatena.Chain.Evm.Client.{Block, TxView}
use omnicatena.Chain.Evm.Match.{match_transactions, watched_of}
use omnicatena.Chain.Evm.Match.Events.{IsFromBlock, match_transactions-IsFromBlock}
use omnicatena.Chain.Evm.Watcher.{poll_tick}
use omnicatena.Chain.Evm.Watcher.Scan.{cursors, node, poll_tick-eq, served, take_event}
use omnicatena.Domain.{Address, TxEvent}
use omnicatena.Tests.Fixtures.{paid}

-- A transaction is its sender and its recipient; an address denotes itself.
abbrev pub pair_view : TxView String (String × String)
pair_view = record {
  hex_to_address = λ a. a;
  hex = λ a. a;
  sender = λ t. ok t.0;
  recipient = λ t. some t.1;
  value = λ _. pos 1;
  hash_hex = λ _. "0x1";
}

abbrev watched : List Address
watched = "alice" ∷ "bob" ∷ []

abbrev pub block_txs : List (String × String)
block_txs = ("alice", "bob") ∷ ("carol", "alice") ∷ []

match_transactions-IsFromBlock_example :
    All
      (IsFromBlock pair_view "ethereum" 6 100 watched block_txs)
      (match_transactions pair_view "ethereum" block_txs 6 100 (watched_of pair_view watched))
match_transactions-IsFromBlock_example =
    match_transactions-IsFromBlock pair_view "ethereum" 6 100 watched block_txs

abbrev two_blocks : ℕ → Result (Block Address)
two_blocks n =
    if ltb n 8
    then ok (record { transactions = "alice" ∷ []; time = n })
    else err (sentinel "not found")

-- The store refuses the height 7.
abbrev all_but_7 : ℕ → Result (Unit {0})
all_but_7 n = if eqb n 7 then err (sentinel "down") else ok tt

abbrev block_events : Block Address → ℕ → List TxEvent
block_events b n = map paid b.transactions

poll_tick-eq_example :
    poll_tick
      (node block_events (ok 9) two_blocks all_but_7)
      (some (cursors block_events (ok 9) two_blocks all_but_7))
      "ethereum"
      block_events
      (take_event block_events (ok 9) two_blocks all_but_7)
      6
      (record { sent = []; cursor = some 5 })
    ≡ (ok (8, true), record { sent = paid "alice" ∷ paid "alice" ∷ []; cursor = some 6 })
unfolding served
poll_tick-eq_example =
    poll_tick-eq block_events (ok 9) two_blocks all_but_7 "ethereum" 6
      (record { sent = []; cursor = some 5 })
